-- ===== src/Http/Server.antt =====
-- http/http_server.h, http/http_server.cpp: what the server does on a connection's events.
pub mod Pipeline
mod Tests
use game_frame.Prelude.{
  ℕ, Bool, true, false, not, List, [], ◌∷◌, Option, none, some, if◌then◌else◌, codes,
}
use mathlib.Core.Option
use game_frame.Buffer.{Buffer}
use game_frame.Http.Request.{Headers, HttpRequest, keep_alive}
use game_frame.Http.Context.{
  ParseState, expect_request_line, expect_headers, got_all, HttpContext, new_context, reset, parse,
}
use game_frame.Http.Response.{
  HttpResponse, bad_request, not_found, new_response, set_content_type, serialize,
}

-- The calls of the connection: `send`, `shutdown` and `close`.
pub data Action : Type 0 where
  sends : List ℕ → Action
  shuts_down closes : Action

-- A connection that is up gets a parser of its own.
pub on_connection : Bool → Option HttpContext → Option HttpContext
on_connection true context = some new_context
on_connection false context = context

pub is_got_all : ParseState → Bool
is_got_all got_all = true
is_got_all expect_request_line = false
is_got_all expect_headers = false

abbrev pub HttpCallback : Type 0
HttpCallback = HttpRequest → HttpResponse → HttpResponse

-- `http_cb_`, or what is answered when there is none
pub fill : Option HttpCallback → HttpRequest → HttpResponse → HttpResponse
fill (some http_cb) req resp = http_cb req resp
fill none req resp = record resp {
  status_code = not_found;
  status_message = codes "Not Found";
  body = codes "404 Not Found\n";
}

pub bad_request_response : HttpResponse
bad_request_response = set_content_type (codes "text/plain") (record new_response {
  status_code = bad_request;
  status_message = codes "Bad Request";
  close_connection = true;
  body = codes "400 Bad Request\n";
})

module _ (tolower : ℕ → ℕ) (to_string : ℕ → List ℕ) (order : Headers → Headers)
    (http_cb : Option HttpCallback) where
  pub response_to : HttpRequest → HttpResponse
  response_to req = fill http_cb req (
      set_content_type (codes "text/plain")
        (record new_response { close_connection = not (keep_alive req) }))

  pub on_request : HttpRequest → List Action
  on_request req =
      sends (serialize to_string order (response_to req))
      ∷ (if not (keep_alive req) then shuts_down ∷ [] else [])

  -- The branches on the result of `parse`.
  after_parse : Bool × HttpContext × Buffer → Option HttpContext × Buffer × List Action
  after_parse (false, c, buf) =
      (some c, buf, sends (serialize to_string order bad_request_response) ∷ shuts_down ∷ [])
  after_parse (true, c, buf) =
      if is_got_all c.state then (some (reset c), buf, on_request c.request) else (some c, buf, [])

  -- `none` is a parser that does not return.
  pub on_message : Option HttpContext → Buffer → Option (Option HttpContext × Buffer × List Action)
  on_message none buf = some (none, buf, closes ∷ [])
  on_message (some c) buf = Option.map after_parse (parse tolower c buf)
