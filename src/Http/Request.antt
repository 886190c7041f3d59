-- ===== src/Http/Request.antt =====
-- http/http_request.h: a request that has been parsed.
use game_frame.Prelude.{
  ℕ, ◌≡◌, refl, sym, ap, ◌∙◌, inl, inr, Bool, true, false, Bool-cases, same_text_refl, same_text-eq,
  not, List, [], ◌∷◌, if◌then◌else◌, map, codes, same_text, Lacks, arith,
}

pub data Method : Type 0 where
  invalid get post head put delete : Method

pub data Version : Type 0 where
  unknown http10 http11 : Version

-- `unordered_map<string, string>`: the entries, no key twice.
abbrev pub Headers : Type 0
Headers = List (List ℕ × List ℕ)

-- `headers[key] = value`
unfoldable pub set_entry : List ℕ → List ℕ → Headers → Headers
set_entry key value [] = (key, value) ∷ []
set_entry key value ((k, v) ∷ es) =
    let rest = set_entry key value es in if same_text k key then (k, value) ∷ es else (k, v) ∷ rest

-- The value under a key, and the empty string where there is none.
pub get_entry : List ℕ → Headers → List ℕ
get_entry key [] = []
get_entry key ((k, v) ∷ es) = let rest = get_entry key es in if same_text k key then v else rest

pub record HttpRequest : Type 0 where
  pub method : Method
  pub version : Version
  pub path : List ℕ
  pub query : List ℕ
  pub headers : Headers

abbrev pub new_request : HttpRequest
new_request = record { method = invalid; version = unknown; path = []; query = []; headers = [] }

unfoldable pub method_of : List ℕ → Method
method_of m =
    if same_text m (codes "GET")
    then get
    else if same_text m (codes "POST")
    then post
    else if same_text m (codes "HEAD")
    then head
    else if same_text m (codes "PUT")
    then put
    else if same_text m (codes "DELETE")
    then delete
    else invalid

abbrev pub set_method : List ℕ → HttpRequest → HttpRequest
set_method m r = record r { method = method_of m }

unfoldable pub method_string : Method → List ℕ
method_string get = codes "GET"
method_string post = codes "POST"
method_string head = codes "HEAD"
method_string put = codes "PUT"
method_string delete = codes "DELETE"
method_string invalid = codes "INVALID"

-- `tolower` is the C library's, of a byte.
pub add_header : (ℕ → ℕ) → List ℕ → List ℕ → HttpRequest → HttpRequest
add_header tolower key value r = record r { headers = set_entry (map tolower key) value r.headers }

pub get_header : List ℕ → HttpRequest → List ℕ
get_header key r = get_entry key r.headers

keep_alive_in : Version → List ℕ → Bool
keep_alive_in http11 conn = not (same_text conn (codes "close"))
keep_alive_in http10 conn = same_text conn (codes "keep-alive")
keep_alive_in unknown conn = same_text conn (codes "keep-alive")

pub keep_alive : HttpRequest → Bool
keep_alive r = keep_alive_in r.version (get_header (codes "connection") r)

pub reset_request : HttpRequest → HttpRequest
reset_request r = record {
  method = invalid;
  version = unknown;
  path = [];
  query = [];
  headers = [];
}

-- `set_method` reads back what `method_string` writes, for every method that is valid.
pub method_of-method_string : (m : Method) → method_of (method_string m) ≡ m
unfolding method_of method_string
method_of-method_string get = refl
method_of-method_string post = refl
method_of-method_string head = refl
method_of-method_string put = refl
method_of-method_string delete = refl
method_of-method_string invalid = refl

pub method_string-Lacks :
    (m : Method) → Lacks b' ' (method_string m) × Lacks b'\r' (method_string m)
unfolding method_string
method_string-Lacks get = omega arith
method_string-Lacks post = omega arith
method_string-Lacks head = omega arith
method_string-Lacks put = omega arith
method_string-Lacks delete = omega arith
method_string-Lacks invalid = omega arith

pub reset_request_lem : (r : HttpRequest) → reset_request r ≡ new_request
unfolding reset_request
reset_request_lem r = refl

-- What a table finds under a key after `headers[key] = value`.
get_entry-set_entry :
    (key value wanted : List ℕ) (es : Headers)
    → get_entry wanted (set_entry key value es)
      ≡ (if same_text key wanted then value else get_entry wanted es)
unfolding get_entry set_entry
get_entry-set_entry key value wanted [] = refl
get_entry-set_entry key value wanted ((k, v) ∷ es) = elim (Bool-cases (same_text k key)) [
  | inl same ↦
      let eq : k ≡ key = same_text-eq k key same in
      elim (Bool-cases (same_text key wanted)) [
        | inl hit ↦ rw (same, eq, hit) refl
        | inr miss ↦ rw (same, eq, miss) refl
      ]
  | inr other ↦ elim (Bool-cases (same_text k wanted)) [
    | inl hit ↦ elim (Bool-cases (same_text key wanted)) [
      | inl both ↦
          let eq : key ≡ k = same_text-eq key wanted both ∙ sym (same_text-eq k wanted hit) in
          let bad : true ≡ false = sym (same_text_refl k) ∙ ap (same_text k) (sym eq) ∙ other in cc
      | inr miss ↦ rw (other, hit, miss) refl
    ]
    | inr past ↦ rw (other, past) (get_entry-set_entry key value wanted es)
  ]
]

pub get_header-add_header :
    (tolower : ℕ → ℕ) (key value wanted : List ℕ) (r : HttpRequest)
    → get_header wanted (add_header tolower key value r)
      ≡ (if same_text (map tolower key) wanted then value else get_header wanted r)
unfolding get_header add_header
get_header-add_header tolower key value wanted r =
    get_entry-set_entry (map tolower key) value wanted r.headers

pub get_header-empty :
    (wanted : List ℕ) (r : HttpRequest) → r.headers ≡ [] → get_header wanted r ≡ []
unfolding get_header get_entry
get_header-empty wanted r e = ap (get_entry wanted) e

-- A header changes nothing else.
pub add_header-others :
    (tolower : ℕ → ℕ) (key value : List ℕ) (r : HttpRequest)
    → let t = add_header tolower key value r in
      (t.method ≡ r.method) × (t.version ≡ r.version) × (t.path ≡ r.path) × (t.query ≡ r.query)
unfolding add_header
add_header-others tolower key value r = (refl, refl, refl, refl)

-- RFC 9112, 9.3: a client of HTTP/1.1 asks to close, and any other asks not to.
abbrev wants_close_in : Version → List ℕ → Bool
wants_close_in http11 conn = same_text conn (codes "close")
wants_close_in http10 conn = not (same_text conn (codes "keep-alive"))
wants_close_in unknown conn = not (same_text conn (codes "keep-alive"))

abbrev pub wants_close : HttpRequest → Bool
wants_close r = wants_close_in r.version (get_header (codes "connection") r)

twice_negated : (b : Bool) → not (not b) ≡ b
twice_negated true = refl
twice_negated false = refl

pub keep_alive-wants_close : (r : HttpRequest) → not (keep_alive r) ≡ wants_close r
unfolding keep_alive keep_alive_in
keep_alive-wants_close r = by_version r.version (get_header (codes "connection") r)
  where
    by_version : (v : Version) (conn : List ℕ) → not (keep_alive_in v conn) ≡ wants_close_in v conn
    by_version http11 conn = twice_negated (same_text conn (codes "close"))
    by_version http10 conn = refl
    by_version unknown conn = refl
