-- ===== src/Http/Context/RoundTrip.antt =====
-- http/http_context.h: `parse` reads back the request that a text was made from.
use game_frame.Prelude.{
  ℕ, zero, suc, ◌+◌, ◌<◌, ◌≡◌, ◌≢◌, refl, ap, ◌∙◌, Bool, true, false, List, [], ◌∷◌, ◌++◌, Option,
  none, some, if◌then◌else◌, All, length, length-append, take, drop, take-length_append, drop_past,
  find, Lacks, find-Lacks, Lacks-append, arith,
}
use game_frame.Buffer.Crlf.{NoCr, search_crlf-line}
use game_frame.Http.Request.{
  Method, invalid, get, post, head, put, delete, Version, unknown, http10, http11, HttpRequest,
  new_request, set_method, method_string, add_header, method_of-method_string, method_string-Lacks,
}
use game_frame.Http.Context.{
  expect_request_line, expect_headers, got_all, HttpContext, new_context, is_invalid,
  version_branch, set_uri, uri_branch, method_branch, parse_request_line, skip_spaces,
  header_branch, parse_header, goes_on, line_round, header_round, round_in, round,
}
use game_frame.Http.Context.Parsing.{parse_text, parse_text-step, parse_text-end}
use game_frame.Http.Context.Grammar.{
  Message, uri_text, version_text, request_line, line_end, fields_text, message_text, IsField,
  IsMessage, QueryLacks, with_fields, query_of, request_of, Holds, request_of-Holds, set_uri_lem,
  version_branch_lem,
}

valid_method : (m : Method) → m ≢ invalid → is_invalid m ≡ false
unfolding is_invalid
valid_method get h = refl
valid_method post h = refl
valid_method head h = refl
valid_method put h = refl
valid_method delete h = refl
valid_method invalid h = absurd (h refl)

Lacks-uri :
    (path : List ℕ) (query : Option (List ℕ)) (c : ℕ)
    → b'?' ≢ c
    → Lacks c path
    → QueryLacks c query
    → Lacks c (uri_text path query)
Lacks-uri path none c n h k = h
Lacks-uri path (some q) c n h k = Lacks-append c path (b'?' ∷ q) h (n, k)

module _ (tolower : ℕ → ℕ) where
  abbrev request_with : Message → HttpRequest
  request_with m = record {
    method = m.method;
    version = m.version;
    path = m.path;
    query = query_of tolower m.query;
    headers = [];
  }

  parse_request_line_lem :
      (m : Message)
      → IsMessage m
      → parse_request_line (request_line m) new_request ≡ (true, request_with m)
  unfolding parse_request_line method_branch uri_branch
  parse_request_line_lem m i =
      let name : List ℕ = method_string m.method in
      let uri : List ℕ = uri_text m.path m.query in
      let rest : List ℕ = uri ++ b' ' ∷ version_text m.version in
      let named : HttpRequest = record new_request { method = m.method } in
      let no_space : Lacks b' ' uri =
        Lacks-uri m.path m.query b' ' (omega arith) i.path.1 i.query.1 in
      ap (λ o. method_branch o (request_line m) new_request)
        (find-Lacks b' ' name rest (method_string-Lacks m.method).0)
      ∙ ap (λ n. method_branch_on n (drop (suc (length name)) (request_line m)))
          (take-length_append (length name) name (b' ' ∷ rest) refl)
      ∙ ap (λ t. method_branch_on name t) (drop_past name b' ' rest)
      ∙ ap
          (λ n.
            let r : HttpRequest = record new_request { method = n } in
            if is_invalid n then (false, r) else uri_branch (find b' ' rest) rest r)
          (method_of-method_string m.method)
      ∙ ap (λ b. if b then (false, named) else uri_branch (find b' ' rest) rest named)
          (valid_method m.method i.method)
      ∙ ap (λ o. uri_branch o rest named) (find-Lacks b' ' uri (version_text m.version) no_space)
      ∙ ap (λ u. version_branch (drop (suc (length uri)) rest) (set_uri (find b'?' u) u named))
          (take-length_append (length uri) uri (b' ' ∷ version_text m.version) refl)
      ∙ ap (λ v. version_branch v (set_uri (find b'?' uri) uri named))
          (drop_past uri b' ' (version_text m.version))
      ∙ ap (version_branch (version_text m.version))
          (set_uri_lem tolower m.path m.query named i.path.2 refl)
      ∙ version_branch_lem tolower m.version _ i.version
    where
      method_branch_on : List ℕ → List ℕ → Bool × HttpRequest
      method_branch_on n rest =
          let named = set_method n new_request in
          if is_invalid named.method then (false, named) else uri_branch (find b' ' rest) rest named

  NoCr-version : (v : Version) → NoCr (version_text v)
  NoCr-version http11 = omega arith
  NoCr-version http10 = omega arith
  NoCr-version unknown = omega arith

  NoCr-request_line : (m : Message) → IsMessage m → NoCr (request_line m)
  NoCr-request_line m i =
      Lacks-append b'\r' (method_string m.method) _ (method_string-Lacks m.method).1 (
        omega arith,
        Lacks-append b'\r' (uri_text m.path m.query) _
            (Lacks-uri m.path m.query b'\r' (omega arith) i.path.0 i.query.0)
            (omega arith, NoCr-version m.version),
      )

  -- A line and its end, before any bytes.
  take_line : (line rest : List ℕ) → take (length line) (line ++ line_end rest) ≡ line
  take_line line rest = take-length_append (length line) line (line_end rest) refl

  drop_line : (line rest : List ℕ) → drop (length line + 2) (line ++ line_end rest) ≡ rest
  drop_line [] rest = refl
  drop_line (x ∷ xs) rest =
      ap (λ n. drop n (x ∷ xs ++ line_end rest)) {x = suc (length xs) + 2} {y = suc (length xs + 2)}
        (omega arith)
      ∙ drop_line xs rest

  request_line_round :
      (m : Message) (rest : List ℕ)
      → IsMessage m
      → parse_text tolower new_context (request_line m ++ line_end rest)
        ≡ parse_text tolower (record { state = expect_headers; request = request_with m }) rest
  unfolding round round_in line_round
  request_line_round m rest i =
      let line : List ℕ = request_line m in
      let text : List ℕ = line ++ line_end rest in
      parse_text-step tolower new_context
        (record { state = expect_headers; request = request_with m }) text (length line + 2)
        (ap (λ o. round_in tolower expect_request_line o text new_request)
            (search_crlf-line line rest (NoCr-request_line m i))
          ∙ ap (λ l. line_round tolower (length line) (parse_request_line l new_request))
              (take_line line rest)
          ∙ ap (line_round tolower (length line)) (parse_request_line_lem m i))
      ∙ ap (parse_text tolower (record { state = expect_headers; request = request_with m }))
          (drop_line line rest)

  parse_header_lem :
      (key value : List ℕ) (r : HttpRequest)
      → IsField (key, value)
      → parse_header tolower (key ++ b':' ∷ b' ' ∷ value) r ≡ (true, add_header tolower key value r)
  unfolding parse_header header_branch skip_spaces
  parse_header_lem key value r i =
      let line : List ℕ = key ++ b':' ∷ b' ' ∷ value in
      ap (λ o. header_branch tolower o line r) (find-Lacks b':' key (b' ' ∷ value) i.0.1)
      ∙ ap (λ k. (true, add_header tolower k (skip_spaces (drop (suc (length key)) line)) r))
          (take-length_append (length key) key (b':' ∷ b' ' ∷ value) refl)
      ∙ ap (λ v. (true, add_header tolower key (skip_spaces v) r))
          (drop_past key b':' (b' ' ∷ value))
      ∙ ap (λ v. (true, add_header tolower key v r)) i.2

  -- The round of a line that is not empty.
  a_field :
      (n : ℕ) (text : List ℕ) (r : HttpRequest)
      → 0 < n
      → round_in tolower expect_headers (some n) text r
        ≡ header_round tolower n (parse_header tolower (take n text) r)
  unfolding round_in
  a_field zero text r h = absurd (omega arith)
  a_field (suc n) text r h = refl

  stays :
      (n : ℕ) (r : HttpRequest)
      → header_round tolower n (true, r)
        ≡ goes_on (record { state = expect_headers; request = r }) (n + 2)
  unfolding header_round
  stays n r = refl

  field_round :
      (key value rest : List ℕ) (r : HttpRequest)
      → IsField (key, value)
      → parse_text tolower
          (record { state = expect_headers; request = r })
          ((key ++ b':' ∷ b' ' ∷ value) ++ line_end rest)
        ≡ parse_text tolower
            (record { state = expect_headers; request = add_header tolower key value r })
            rest
  unfolding round
  field_round key value rest r i =
      let line : List ℕ = key ++ b':' ∷ b' ' ∷ value in
      let text : List ℕ = line ++ line_end rest in
      let next : HttpContext = record {
        state = expect_headers;
        request = add_header tolower key value r;
      } in
      parse_text-step tolower (record { state = expect_headers; request = r }) next text
        (length line + 2)
        (ap (λ o. round_in tolower expect_headers o text r)
            (search_crlf-line line rest
              (Lacks-append b'\r' key _ i.0.0 (omega arith, (omega arith, i.1))))
          ∙ a_field (length line) text r (omega (arith, length-append key (b':' ∷ b' ' ∷ value)))
          ∙ ap (λ l. header_round tolower (length line) (parse_header tolower l r))
              (take_line line rest)
          ∙ ap (header_round tolower (length line)) (parse_header_lem key value r i)
          ∙ stays (length line) (add_header tolower key value r))
      ∙ ap (parse_text tolower next) (drop_line line rest)

  fields_rounds :
      (fs : List (List ℕ × List ℕ)) (rest : List ℕ) (r : HttpRequest)
      → All IsField fs
      → parse_text tolower (record { state = expect_headers; request = r }) (fields_text fs rest)
        ≡ some (true, record { state = got_all; request = with_fields tolower fs r }, rest)
  unfolding round round_in
  fields_rounds [] rest r h =
      parse_text-end tolower (record { state = expect_headers; request = r })
        (record { state = got_all; request = r }) (line_end rest) 2
        (ap (λ o. round_in tolower expect_headers o (line_end rest) r)
          (search_crlf-line [] rest tt))
  fields_rounds ((key, value) ∷ fs) rest r h =
      field_round key value (fields_text fs rest) r h.0
      ∙ fields_rounds fs rest (add_header tolower key value r) h.1

  pub message_rounds :
      (m : Message) (rest : List ℕ)
      → IsMessage m
      → parse_text tolower new_context (message_text m rest)
        ≡ some (true, record { state = got_all; request = request_of tolower m }, rest)
  message_rounds m rest i =
      request_line_round m (fields_text m.fields rest) i
      ∙ fields_rounds m.fields rest (request_with m) i.fields

  -- The text of any request whose parts do not contain their own delimiters is parsed whole: the context
  -- then holds its method, version, path and query, under each name the value of the last field with that name
  -- in any case, and nothing under any other; and the bytes behind it are left to read.
  pub parse_text-message_text :
      (m : Message) (rest : List ℕ)
      → IsMessage m
      → (r : HttpRequest) × (parse_text tolower new_context (message_text m rest)
          ≡ some (true, record { state = got_all; request = r }, rest))
        × Holds tolower m r
  parse_text-message_text m rest i =
      (request_of tolower m, message_rounds m rest i, request_of-Holds tolower m)
