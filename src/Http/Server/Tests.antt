-- ===== src/Http/Server/Tests.antt =====
-- http/http_server.cpp: two requests that arrive together.
use game_frame.Prelude.{
  ℕ, ◌+◌, ◌≡◌, Bool, List, [], ◌∷◌, none, some, leb, ◌&&◌, if◌then◌else◌, codes, arith,
}
use game_frame.Buffer.{Buffer, readable_view}
use game_frame.Buffer.Regions.{IsValid}
use game_frame.Http.Request.{Headers, get, http11}
use game_frame.Http.Context.{HttpContext, new_context}
use game_frame.Http.Context.Parsing.{parse_text}
use game_frame.Http.Context.Grammar.{Message}
use game_frame.Http.Server.{on_message}
use game_frame.Http.Server.Pipeline.{served, on_message_answers}

abbrev lower : ℕ → ℕ
lower c = if leb b'A' c && leb c b'Z' then c + 32 else c

abbrev one_digit : ℕ → List ℕ
one_digit n = (b'0' + n) ∷ []

abbrev keep_order : Headers → Headers
keep_order es = es

abbrev message : Message
message = record { method = get; path = codes "/"; query = none; version = http11; fields = [] }

abbrev two_requests : Buffer
two_requests = record {
  storage = codes "........GET / HTTP/1.1\r\n\r\nGET / HTTP/1.1\r\n\r\n";
  reader_index = 8;
  writer_index = 44;
}

two_requests-IsValid : IsValid two_requests
two_requests-IsValid = omega arith

on_message_answers_example :
    (legal : Bool) × (d : HttpContext) × (b' : Buffer) × (parse_text lower new_context
        (readable_view two_requests)
      ≡ some (legal, d, readable_view b'))
    × IsValid b'
    × (on_message lower one_digit keep_order none (some new_context) two_requests
        ≡ some (served lower one_digit keep_order none legal d.state d b'))
on_message_answers_example =
    on_message_answers lower one_digit keep_order none new_context two_requests two_requests-IsValid
