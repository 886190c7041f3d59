-- ===== src/Http/Context.antt =====
-- http/http_context.h: the state machine that parses a request, over a connection's input buffer.
pub mod Lines
pub mod Parsing
pub mod Chunks
pub mod Grammar
pub mod RoundTrip
mod Tests
use game_frame.Prelude.{
  ℕ, zero, suc, ◌+◌, ◌≡◌, ap, Bool, true, false, List, [], ◌∷◌, Option, none, some, ◌==◌,
  if◌then◌else◌, length, take, drop, codes, same_text, find,
}
use game_frame.Buffer.{Buffer, readable_bytes, readable_view, find_crlf, retrieve_until}
use game_frame.Http.Request.{
  Method, invalid, Version, unknown, http10, http11, HttpRequest, new_request, set_method,
  add_header, reset_request, reset_request_lem,
}

pub data ParseState : Type 0 where
  expect_request_line expect_headers got_all : ParseState

pub record HttpContext : Type 0 where
  pub state : ParseState
  pub request : HttpRequest

abbrev pub new_context : HttpContext
new_context = record { state = expect_request_line; request = new_request }

pub reset : HttpContext → HttpContext
reset c = record { state = expect_request_line; request = reset_request c.request }

pub is_invalid : Method → Bool
is_invalid invalid = true
is_invalid m = false

-- The branches on what follows the second space, `set_version` included.
pub version_branch : List ℕ → HttpRequest → Bool × HttpRequest
version_branch ver r =
    if same_text ver (codes "HTTP/1.1")
    then (true, record r { version = http11 })
    else if same_text ver (codes "HTTP/1.0")
    then (true, record r { version = http10 })
    else (false, r)

-- The branches on `uri.find('?')`.
pub set_uri : Option ℕ → List ℕ → HttpRequest → HttpRequest
set_uri none uri r = record r { path = uri }
set_uri (some q) uri r = record r { path = take q uri; query = drop (suc q) uri }

-- The branches on the second space, an index into `rest`, which is what follows the first.
uri_branch : Option ℕ → List ℕ → HttpRequest → Bool × HttpRequest
uri_branch none rest r = (false, r)
uri_branch (some sp2) rest r =
    let uri = take sp2 rest in version_branch (drop (suc sp2) rest) (set_uri (find b'?' uri) uri r)

-- The branches on the first space.
method_branch : Option ℕ → List ℕ → HttpRequest → Bool × HttpRequest
method_branch none line r = (false, r)
method_branch (some sp1) line r =
    let named = set_method (take sp1 line) r in
    let rest = drop (suc sp1) line in
    if is_invalid named.method then (false, named) else uri_branch (find b' ' rest) rest named

-- Whether the line is well-formed, and the request as far as it was filled in.
pub parse_request_line : List ℕ → HttpRequest → Bool × HttpRequest
parse_request_line line r = method_branch (find b' ' line) line r

-- the loop over the spaces behind the colon
pub skip_spaces : List ℕ → List ℕ
skip_spaces [] = []
skip_spaces (c ∷ cs) = let rest = skip_spaces cs in if c == b' ' then rest else c ∷ cs

-- A round of `parse`: it goes on after `used` bytes, it stops with this result, or it stops after the
-- `used` bytes of the empty line.
pub data Round : Type 0 where
  goes_on : HttpContext → ℕ → Round
  stops : Bool → HttpContext → Round
  completes : HttpContext → ℕ → Round

module _ (tolower : ℕ → ℕ) where
  -- The branches on `line.find(':')`.
  header_branch : Option ℕ → List ℕ → HttpRequest → Bool × HttpRequest
  header_branch none line r = (false, r)
  header_branch (some colon) line r =
      (true, add_header tolower (take colon line) (skip_spaces (drop (suc colon) line)) r)

  pub parse_header : List ℕ → HttpRequest → Bool × HttpRequest
  parse_header line r = header_branch (find b':' line) line r

  -- A request line of `i` bytes, with the result of its parser.
  line_round : ℕ → Bool × HttpRequest → Round
  line_round i (true, r) = goes_on (record { state = expect_headers; request = r }) (i + 2)
  line_round i (false, r) = stops false (record { state = expect_request_line; request = r })

  header_round : ℕ → Bool × HttpRequest → Round
  header_round i (true, r) = goes_on (record { state = expect_headers; request = r }) (i + 2)
  header_round i (false, r) = stops false (record { state = expect_headers; request = r })

  -- A round in a state, with what `find_crlf` returned and the readable bytes.
  round_in : ParseState → Option ℕ → List ℕ → HttpRequest → Round
  round_in got_all o view r = stops true (record { state = got_all; request = r })
  round_in expect_request_line none view r =
      stops true (record { state = expect_request_line; request = r })
  round_in expect_request_line (some i) view r = line_round i (parse_request_line (take i view) r)
  round_in expect_headers none view r = stops true (record { state = expect_headers; request = r })
  round_in expect_headers (some zero) view r = completes (record { state = got_all; request = r }) 2
  round_in expect_headers (some (suc i)) view r =
      header_round (suc i) (parse_header (take (suc i) view) r)

  pub round : HttpContext → Option ℕ → List ℕ → Round
  round c o view = round_in c.state o view c.request

  -- The loop of `parse` with fuel, where `none` is fuel that ran out.
  pub parse_loop : ℕ → HttpContext → Buffer → Option (Bool × HttpContext × Buffer)
  parse_loop zero c b = none
  parse_loop (suc fuel) c b = elim (round c (find_crlf b) (readable_view b)) [
    | goes_on d used ↦ parse_loop fuel d (retrieve_until b used)
    | stops ok d ↦ some (ok, d, b)
    | completes d used ↦ some (true, d, retrieve_until b used)
  ]

  -- Every round but the last takes a byte at least.
  pub parse : HttpContext → Buffer → Option (Bool × HttpContext × Buffer)
  parse c b = parse_loop (suc (readable_bytes b)) c b

-- A parser that is reset is a new one.
pub reset_lem : (c : HttpContext) → reset c ≡ new_context
unfolding reset
reset_lem c =
    ap (λ r. record { state = expect_request_line; request = r }) (reset_request_lem c.request)
