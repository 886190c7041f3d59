-- ===== src/Http/Response.antt =====
-- http/http_response.h: a response and its text.
pub mod Framing
mod Tests
use game_frame.Prelude.{ℕ, Bool, true, false, List, [], ◌∷◌, ◌++◌, if◌then◌else◌, length, codes}
use game_frame.Http.Request.{Headers, set_entry}

pub data StatusCode : Type 0 where
  ok moved_permanently bad_request not_found internal_error : StatusCode

pub code_number : StatusCode → ℕ
code_number ok = 200
code_number moved_permanently = 301
code_number bad_request = 400
code_number not_found = 404
code_number internal_error = 500

pub record HttpResponse : Type 0 where
  pub status_code : StatusCode
  pub status_message : List ℕ
  pub close_connection : Bool
  pub headers : Headers
  pub body : List ℕ

abbrev pub new_response : HttpResponse
new_response = record {
  status_code = ok;
  status_message = codes "OK";
  close_connection = false;
  headers = [];
  body = [];
}

unfoldable pub set_content_type : List ℕ → HttpResponse → HttpResponse
set_content_type type r = record r { headers = set_entry (codes "Content-Type") type r.headers }

pub add_header : List ℕ → List ℕ → HttpResponse → HttpResponse
add_header key value r = record r { headers = set_entry key value r.headers }

pub crlf : List ℕ
crlf = b'\r' ∷ b'\n' ∷ []

-- the loop over the headers, in the order in which the table gives them
pub header_lines : Headers → List ℕ
header_lines [] = []
header_lines ((key, value) ∷ es) = key ++ codes ": " ++ value ++ crlf ++ header_lines es

pub connection_line : Bool → List ℕ
connection_line true = codes "Connection: close"
connection_line false = codes "Connection: keep-alive"

-- `to_string` is the library's; `order` is the order of iteration of the `unordered_map`.
pub serialize : (ℕ → List ℕ) → (Headers → Headers) → HttpResponse → List ℕ
serialize to_string order r =
    codes "HTTP/1.1 "
    ++ to_string (code_number r.status_code)
    ++ codes " "
    ++ r.status_message
    ++ crlf
    ++ connection_line r.close_connection
    ++ crlf
    ++ codes "Content-Length: "
    ++ to_string (length r.body)
    ++ crlf
    ++ header_lines (order r.headers)
    ++ crlf
    ++ r.body
