-- ===== src/Http/Server/Pipeline.antt =====
-- http/http_server.cpp: which requests a message is answered with.
use game_frame.Prelude.{
  ℕ, ◌≡◌, refl, ap, ◌∙◌, Bool, true, false, List, [], ◌∷◌, Option, none, some, if◌then◌else◌, codes,
}
use mathlib.Core.Option
use game_frame.Buffer.{Buffer, readable_view}
use game_frame.Buffer.Regions.{IsValid}
use game_frame.Http.Request.{Headers, HttpRequest, set_entry, wants_close, keep_alive-wants_close}
use game_frame.Http.Context.{
  ParseState, expect_request_line, expect_headers, got_all, HttpContext, new_context, reset_lem,
}
use game_frame.Http.Context.Parsing.{parse_text, parse_refines}
use game_frame.Http.Response.{ok, bad_request, not_found, HttpResponse, set_content_type, serialize}
use game_frame.Http.Server.{
  Action, sends, shuts_down, HttpCallback, is_got_all, fill, response_to, on_request,
  bad_request_response, after_parse, on_message,
}

abbrev plain_text : Headers
plain_text = (codes "Content-Type", codes "text/plain") ∷ []

-- What a request is to be answered with: what the callback makes of an empty response, or, without one, that
-- nothing was found.
abbrev answer_of : Option HttpCallback → HttpRequest → HttpResponse
answer_of (some http_cb) req = http_cb req (record {
  status_code = ok;
  status_message = codes "OK";
  close_connection = wants_close req;
  headers = plain_text;
  body = [];
})
answer_of none req = record {
  status_code = not_found;
  status_message = codes "Not Found";
  close_connection = wants_close req;
  headers = plain_text;
  body = codes "404 Not Found\n";
}

-- The answer to bytes that are no request.
abbrev refusal : HttpResponse
refusal = record {
  status_code = bad_request;
  status_message = codes "Bad Request";
  close_connection = true;
  headers = plain_text;
  body = codes "400 Bad Request\n";
}

module _ (tolower : ℕ → ℕ) (to_string : ℕ → List ℕ) (order : Headers → Headers)
    (http_cb : Option HttpCallback) where
  abbrev pub reply_to : HttpRequest → List Action
  reply_to req =
      sends (serialize to_string order (answer_of http_cb req))
      ∷ (if wants_close req then shuts_down ∷ [] else [])

  -- What is to be done with a result of the parser: a complete request is answered and a new one is awaited,
  -- an incomplete one is kept, and a malformed one is refused.
  abbrev pub served :
      Bool → ParseState → HttpContext → Buffer → Option HttpContext × Buffer × List Action
  served false s d b = (some d, b, sends (serialize to_string order refusal) ∷ shuts_down ∷ [])
  served true got_all d b = (some new_context, b, reply_to d.request)
  served true expect_request_line d b = (some d, b, [])
  served true expect_headers d b = (some d, b, [])

  response_to_lem :
      (req : HttpRequest) → response_to tolower to_string order http_cb req ≡ answer_of http_cb req
  unfolding response_to fill set_content_type set_entry
  response_to_lem req = by_callback http_cb
    where
      by_callback :
          (cb : Option HttpCallback) → response_to tolower to_string order cb req ≡ answer_of cb req
      by_callback none = rw (keep_alive-wants_close req) refl
      by_callback (some f) = rw (keep_alive-wants_close req) refl

  on_request_lem :
      (req : HttpRequest) → on_request tolower to_string order http_cb req ≡ reply_to req
  unfolding on_request
  on_request_lem req =
      ap
        (λ b.
          sends (serialize to_string order (response_to tolower to_string order http_cb req))
          ∷ (if b then shuts_down ∷ [] else []))
        (keep_alive-wants_close req)
      ∙ ap
          (λ r.
            sends (serialize to_string order r) ∷ (if wants_close req then shuts_down ∷ [] else []))
          (response_to_lem req)

  after_parse_lem :
      (legal : Bool) (s : ParseState) (d : HttpContext) (b : Buffer)
      → d.state ≡ s
      → after_parse tolower to_string order http_cb (legal, d, b) ≡ served legal s d b
  unfolding after_parse is_got_all bad_request_response set_content_type set_entry
  after_parse_lem false s d b e = refl
  after_parse_lem true got_all d b e = rw e (
      ap (λ c. (some c, b, on_request tolower to_string order http_cb d.request))
        (reset_lem (record { state = got_all; request = d.request }))
      ∙ ap (λ acts. (some new_context, b, acts)) (on_request_lem d.request))
  after_parse_lem true expect_request_line d b e = rw e refl
  after_parse_lem true expect_headers d b e = rw e refl

  -- Whatever a valid buffer holds and whatever the parser has seen: `on_message` returns, leaves a valid
  -- buffer, and does what the reading of the buffer's text asks for: it answers nothing while the request is
  -- incomplete; it answers a complete request with what the callback makes of a response with status 200, or
  -- with 404 without a callback, closing the write side exactly if the client asks for it, and awaits the next
  -- request; and it answers a malformed one with 400 and then shuts the connection down.
  pub on_message_answers :
      (c : HttpContext) (b : Buffer)
      → IsValid b
      → (legal : Bool) × (d : HttpContext) × (b' : Buffer) × (parse_text tolower c (readable_view b)
          ≡ some (legal, d, readable_view b'))
        × IsValid b'
        × (on_message tolower to_string order http_cb (some c) b ≡ some (served legal d.state d b'))
  unfolding on_message
  on_message_answers c b v =
      let (legal, d, b', ran, valid, text) = parse_refines tolower c b v in
      (
        legal,
        d,
        b',
        text,
        valid,
        ap (Option.map (after_parse tolower to_string order http_cb)) ran
            ∙ ap some (after_parse_lem legal d.state d b' refl),
      )
