-- ===== src/Http/Context/Tests.antt =====
-- http/http_context.h: a request in two pieces, and its text as a whole.
use game_frame.Prelude.{
  ℕ, ◌+◌, ◌≡◌, refl, Bool, true, [], ◌∷◌, some, leb, ◌&&◌, if◌then◌else◌, codes, arith,
}
use mathlib.Core.Option
use game_frame.Buffer.{
  Buffer, readable_view, search_crlf, find_crlf, retrieve, retrieve_until, append,
}
use game_frame.Buffer.Regions.{IsValid}
use game_frame.Http.Request.{HttpRequest, get, http11, method_of}
use game_frame.Http.Context.{
  expect_headers, got_all, HttpContext, new_context, skip_spaces, is_invalid, version_branch,
  set_uri, uri_branch, method_branch, parse_request_line, line_round, round_in, round, parse_loop,
  parse,
}
use game_frame.Http.Context.Parsing.{outcome_of, parse_text, parse_refines}
use game_frame.Http.Context.Chunks.{parse-append}
use game_frame.Http.Context.Grammar.{Message, message_text, IsMessage, Holds}
use game_frame.Http.Context.RoundTrip.{parse_text-message_text}

-- `tolower` of the "C" locale
abbrev lower : ℕ → ℕ
lower c = if leb b'A' c && leb c b'Z' then c + 32 else c

-- a buffer with a request line and the first bytes of a header, and no room behind them
abbrev first_piece : Buffer
first_piece = record {
  storage = codes "........GET /index HTTP/1.1\r\nHo";
  reader_index = 8;
  writer_index = 31;
}

-- what is left of it after its line
abbrev header_piece : Buffer
header_piece = record first_piece { reader_index = 29 }

abbrev line_read : HttpContext
line_read = record {
  state = expect_headers;
  request = record {
    method = get;
    version = http11;
    path = codes "/index";
    query = [];
    headers = [];
  };
}

first_piece-IsValid : IsValid first_piece
first_piece-IsValid = omega arith

parse_refines_example :
    (ok : Bool) × (d : HttpContext) × (b' : Buffer) × (parse lower new_context first_piece
      ≡ some (ok, d, b'))
    × IsValid b'
    × (parse_text lower new_context (readable_view first_piece) ≡ some (ok, d, readable_view b'))
parse_refines_example = parse_refines lower new_context first_piece first_piece-IsValid

waiting : parse lower new_context first_piece ≡ some (true, line_read, header_piece)
unfolding parse parse_loop round round_in line_round parse_request_line method_branch method_of
    is_invalid uri_branch version_branch set_uri find_crlf search_crlf retrieve_until retrieve
waiting = refl

parse-append_example :
    Option.map outcome_of (parse lower new_context (append first_piece (codes "st: here\r\n\r\n")))
    ≡ Option.map outcome_of (parse lower line_read (append header_piece (codes "st: here\r\n\r\n")))
parse-append_example =
    parse-append lower new_context line_read first_piece header_piece (codes "st: here\r\n\r\n")
      first_piece-IsValid (omega arith) (omega arith) waiting (λ e. cc)

abbrev message : Message
message = record {
  method = get;
  path = codes "/index";
  query = some (codes "a=1");
  version = http11;
  fields = (codes "Host", codes "here") ∷ (codes "Connection", codes "close") ∷ [];
}

message-IsMessage : IsMessage message
unfolding skip_spaces
message-IsMessage = record {
  method = λ e. cc;
  version = λ e. cc;
  path = omega arith;
  query = omega arith;
  fields = ((omega arith, omega arith, refl), ((omega arith, omega arith, refl), tt));
}

parse_text-message_text_example :
    (r : HttpRequest) × (parse_text lower new_context (message_text message (codes "GET"))
      ≡ some (true, record { state = got_all; request = r }, codes "GET"))
    × Holds lower message r
parse_text-message_text_example =
    parse_text-message_text lower message (codes "GET") message-IsMessage
