-- ===== src/Http/Context/Grammar.antt =====
-- http/http_context.h: the text of a request, and what `parse` makes of it.
use game_frame.Prelude.{
  ℕ, suc, Bool, if◌then◌else◌, map, same_text, ◌≡◌, ◌≢◌, refl, ap, ◌∙◌, true, false, List, [], ◌∷◌,
  ◌++◌, Option, none, some, All, length, drop, take-length_append, drop_past, codes, find, Lacks,
  find-Lacks, find-none,
}
use game_frame.Buffer.Crlf.{NoCr}
use game_frame.Http.Request.{
  Method, invalid, Version, unknown, http10, http11, HttpRequest, method_string, add_header,
  get_header, get_header-add_header, get_header-empty, add_header-others,
}
use game_frame.Http.Context.{version_branch, set_uri, skip_spaces}

-- A request as a client writes it.
pub record Message : Type 0 where
  pub method : Method
  pub path : List ℕ
  pub query : Option (List ℕ)
  pub version : Version
  pub fields : List (List ℕ × List ℕ)

abbrev pub uri_text : List ℕ → Option (List ℕ) → List ℕ
uri_text path none = path
uri_text path (some query) = path ++ b'?' ∷ query

abbrev pub version_text : Version → List ℕ
version_text http11 = codes "HTTP/1.1"
version_text http10 = codes "HTTP/1.0"
version_text unknown = codes "HTTP"

abbrev pub request_line : Message → List ℕ
request_line m =
    method_string m.method ++ b' ' ∷ (uri_text m.path m.query ++ b' ' ∷ version_text m.version)

-- Each line before a text, with its line end.
abbrev pub line_end : List ℕ → List ℕ
line_end rest = b'\r' ∷ b'\n' ∷ rest

abbrev pub fields_text : List (List ℕ × List ℕ) → List ℕ → List ℕ
fields_text [] rest = line_end rest
fields_text ((key, value) ∷ fs) rest =
    (key ++ b':' ∷ b' ' ∷ value) ++ line_end (fields_text fs rest)

-- The text of the request, before the bytes that follow it.
abbrev pub message_text : Message → List ℕ → List ℕ
message_text m rest = request_line m ++ line_end (fields_text m.fields rest)

abbrev pub IsField : List ℕ × List ℕ → Type 0
IsField (key, value) = (NoCr key × Lacks b':' key) × NoCr value × (skip_spaces value ≡ value)

abbrev pub QueryLacks : ℕ → Option (List ℕ) → Type 0
QueryLacks c none = Unit
QueryLacks c (some q) = Lacks c q

-- No byte that would end its part of the text early.
pub record IsMessage (m : Message) : Type 0 where
  pub method : m.method ≢ invalid
  pub version : m.version ≢ unknown
  pub path : NoCr m.path × Lacks b' ' m.path × Lacks b'?' m.path
  pub query : QueryLacks b'\r' m.query × QueryLacks b' ' m.query
  pub fields : All IsField m.fields

module _ (tolower : ℕ → ℕ) where
  abbrev pub with_fields : List (List ℕ × List ℕ) → HttpRequest → HttpRequest
  with_fields [] r = r
  with_fields ((key, value) ∷ fs) r = with_fields fs (add_header tolower key value r)

  abbrev pub query_of : Option (List ℕ) → List ℕ
  query_of none = []
  query_of (some q) = q

  -- What the parser should make of it.
  abbrev pub request_of : Message → HttpRequest
  request_of m = with_fields m.fields (record {
    method = m.method;
    version = m.version;
    path = m.path;
    query = query_of m.query;
    headers = [];
  })

  -- The value of the last field with this name, in any case.
  abbrev last_value : List ℕ → List (List ℕ × List ℕ) → Option (List ℕ)
  last_value wanted [] = none
  last_value wanted ((key, value) ∷ fs) = elim (last_value wanted fs) [
    | some later ↦ some later
    | none ↦ if same_text (map tolower key) wanted then some value else none
  ]

  abbrev or_else : Option (List ℕ) → List ℕ → List ℕ
  or_else none d = d
  or_else (some v) d = v

  -- A request that holds what the message says: under each name the value of its last field, and the empty
  -- string where there is none.
  pub record Holds (m : Message) (r : HttpRequest) : Type 0 where
    pub method : r.method ≡ m.method
    pub version : r.version ≡ m.version
    pub path : r.path ≡ m.path
    pub query : r.query ≡ query_of m.query
    pub headers : (name : List ℕ) → get_header name r ≡ or_else (last_value name m.fields) []

  with_fields-others :
      (fs : List (List ℕ × List ℕ)) (r : HttpRequest)
      → let t = with_fields fs r in
        (t.method ≡ r.method) × (t.version ≡ r.version) × (t.path ≡ r.path) × (t.query ≡ r.query)
  with_fields-others [] r = (refl, refl, refl, refl)
  with_fields-others ((key, value) ∷ fs) r =
      let (m, v, p, q) = with_fields-others fs (add_header tolower key value r) in
      let (m', v', p', q') = add_header-others tolower key value r in
      (m ∙ m', v ∙ v', p ∙ p', q ∙ q')

  get_header-with_fields :
      (name : List ℕ) (fs : List (List ℕ × List ℕ)) (r : HttpRequest)
      → get_header name (with_fields fs r) ≡ or_else (last_value name fs) (get_header name r)
  get_header-with_fields name [] r = refl
  get_header-with_fields name ((key, value) ∷ fs) r =
      get_header-with_fields name fs (add_header tolower key value r)
      ∙ ap (or_else (last_value name fs)) (get_header-add_header tolower key value name r)
      ∙ pick (last_value name fs) (same_text (map tolower key) name)
    where
      pick :
          (later : Option (List ℕ)) (hit : Bool)
          → or_else later (if hit then value else get_header name r)
            ≡ or_else
                (elim later as (λ _. Option (List ℕ)) [
                  | some w ↦ some w
                  | none ↦ if hit then some value else none
                ])
                (get_header name r)
      pick (some w) hit = refl
      pick none true = refl
      pick none false = refl

  pub request_of-Holds : (m : Message) → Holds m (request_of m)
  request_of-Holds m =
      let blank : HttpRequest = record {
        method = m.method;
        version = m.version;
        path = m.path;
        query = query_of m.query;
        headers = [];
      } in
      let (method, version, path, query) = with_fields-others m.fields blank in
      record {
        method = method;
        version = version;
        path = path;
        query = query;
        headers = λ name.
            get_header-with_fields name m.fields blank
            ∙ ap (or_else (last_value name m.fields)) (get_header-empty name blank refl);
      }

  pub set_uri_lem :
      (path : List ℕ) (query : Option (List ℕ)) (r : HttpRequest)
      → Lacks b'?' path
      → r.query ≡ []
      → set_uri (find b'?' (uri_text path query)) (uri_text path query) r
        ≡ record r { path = path; query = query_of query }
  unfolding set_uri
  set_uri_lem path none r h e =
      ap (λ o. set_uri o path r) (find-none b'?' path h)
      ∙ ap (λ q. record r { path = path; query = q }) e
  set_uri_lem path (some q) r h e =
      let uri : List ℕ = path ++ b'?' ∷ q in
      ap (λ o. set_uri o uri r) (find-Lacks b'?' path q h)
      ∙ ap (λ p. record r { path = p; query = drop (suc (length path)) uri })
          (take-length_append (length path) path (b'?' ∷ q) refl)
      ∙ ap (λ p. record r { path = path; query = p }) (drop_past path b'?' q)

  pub version_branch_lem :
      (v : Version) (r : HttpRequest)
      → v ≢ unknown
      → version_branch (version_text v) r ≡ (true, record r { version = v })
  unfolding version_branch
  version_branch_lem http11 r h = refl
  version_branch_lem http10 r h = refl
  version_branch_lem unknown r h = absurd (h refl)
