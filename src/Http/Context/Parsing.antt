-- ===== src/Http/Context/Parsing.antt =====
-- http/http_context.h: `parse` returns, and does to the buffer what its rounds do to the readable bytes.
use game_frame.Prelude.{
  ℕ, zero, suc, ◌<◌, ◌≡◌, ◌≢◌, refl, sym, ap, ◌∙◌, subst, Bool, true, List, [], Option, none, some,
  length, drop, length-drop, arith,
}
use game_frame.Buffer.{
  Buffer, readable_bytes, readable_view, search_crlf, find_crlf, retrieve_until,
}
use game_frame.Buffer.Regions.{IsValid, length-readable_view, retrieve-IsValid}
use game_frame.Buffer.Contents.{view-retrieve}
use game_frame.Buffer.Crlf.{search_crlf-append}
use game_frame.Http.Context.{
  HttpContext, Round, goes_on, stops, completes, round, parse_loop, parse,
}
use game_frame.Http.Context.Lines.{Takes, round-Takes}

abbrev pub Outcome : Type 0
Outcome = Bool × HttpContext × List ℕ

-- The bytes that are left to read.
abbrev pub outcome_of : Bool × HttpContext × Buffer → Outcome
outcome_of (ok, c, b) = (ok, c, readable_view b)

module _ (tolower : ℕ → ℕ) where
  -- The reference: the same rounds over a list of bytes.
  pub scan : ℕ → HttpContext → List ℕ → Option Outcome
  scan zero c xs = none
  scan (suc fuel) c xs = elim (round tolower c (search_crlf xs) xs) [
    | goes_on d used ↦ scan fuel d (drop used xs)
    | stops ok d ↦ some (ok, d, xs)
    | completes d used ↦ some (true, d, drop used xs)
  ]

  pub parse_text : HttpContext → List ℕ → Option Outcome
  parse_text c xs = scan (suc (length xs)) c xs

  -- What `scan` does after a round.
  abbrev pub after_round : ℕ → List ℕ → Round → Option Outcome
  after_round n xs (goes_on d k) = scan n d (drop k xs)
  after_round n xs (stops ok d) = some (ok, d, xs)
  after_round n xs (completes d k) = some (true, d, drop k xs)

  pub scan-round :
      (n : ℕ) (c : HttpContext) (xs : List ℕ)
      → scan (suc n) c xs ≡ after_round n xs (round tolower c (search_crlf xs) xs)
  unfolding scan
  scan-round n c xs =
      elim (round tolower c (search_crlf xs) xs)
        as (λ r.
          elim r as (λ _. Option Outcome) [
            | goes_on d used ↦ scan n d (drop used xs)
            | stops ok d ↦ some (ok, d, xs)
            | completes d used ↦ some (true, d, drop used xs)
          ]
          ≡ after_round n xs r) [ goes_on d k ↦ refl | stops ok d ↦ refl | completes d k ↦ refl ]

  pub scan-zero : (c : HttpContext) (xs : List ℕ) (r : Outcome) → scan zero c xs ≢ some r
  unfolding scan
  scan-zero c xs r h = cc

  pub parse_text_lem :
      (c : HttpContext) (xs : List ℕ) → parse_text c xs ≡ scan (suc (length xs)) c xs
  unfolding parse_text
  parse_text_lem c xs = refl

  -- A round that goes on leaves fewer bytes.
  pub fewer :
      (xs : List ℕ) (k : ℕ) (d : HttpContext)
      → Takes (search_crlf xs) (goes_on d k)
      → length (drop k xs) < length xs
  fewer xs k d (i, e, used) = omega (arith, length-drop k xs, (search_crlf-append xs [] i e).1)

  -- Fuel beyond the number of bytes makes no difference.
  pub scan-fuel :
      (m n : ℕ) (c : HttpContext) (xs : List ℕ)
      → length xs < m
      → length xs < n
      → scan m c xs ≡ scan n c xs
  unfolding scan
  scan-fuel zero n c xs p q = absurd (omega arith)
  scan-fuel (suc m) zero c xs p q = absurd (omega arith)
  scan-fuel (suc m) (suc n) c xs p q =
      elim (round tolower c (search_crlf xs) xs)
          as (λ r.
            Takes (search_crlf xs) r
            → elim r as (λ _. Option Outcome) [
              | goes_on d used ↦ scan m d (drop used xs)
              | stops ok d ↦ some (ok, d, xs)
              | completes d used ↦ some (true, d, drop used xs)
            ]
              ≡ elim r as (λ _. Option Outcome) [
                | goes_on d used ↦ scan n d (drop used xs)
                | stops ok d ↦ some (ok, d, xs)
                | completes d used ↦ some (true, d, drop used xs)
              ]) [
                | goes_on d k ↦ λ t.
                    let less = fewer xs k d t in
                    scan-fuel m n d (drop k xs) (omega arith) (omega arith)
                | stops ok d ↦ λ t. refl
                | completes d k ↦ λ t. refl
              ]
        (round-Takes tolower c (search_crlf xs) xs)

  -- As many rounds as bytes, and one more, are enough.
  scan-returns :
      (n : ℕ) (c : HttpContext) (xs : List ℕ)
      → length xs < n
      → (r : Outcome) × (scan n c xs ≡ some r)
  unfolding scan
  scan-returns zero c xs h = absurd (omega arith)
  scan-returns (suc n) c xs h =
      elim (round tolower c (search_crlf xs) xs)
          as (λ r.
            Takes (search_crlf xs) r
            → (o : Outcome) × (elim r as (λ _. Option Outcome) [
              | goes_on d used ↦ scan n d (drop used xs)
              | stops ok d ↦ some (ok, d, xs)
              | completes d used ↦ some (true, d, drop used xs)
            ]
                ≡ some o)) [
                  | goes_on d k ↦
                      λ t. let less = fewer xs k d t in scan-returns n d (drop k xs) (omega arith)
                  | stops ok d ↦ λ t. ((ok, d, xs), refl)
                  | completes d k ↦ λ t. ((true, d, drop k xs), refl)
                ]
        (round-Takes tolower c (search_crlf xs) xs)

  -- A line that is taken leaves the rest to parse.
  pub parse_text-step :
      (c d : HttpContext) (xs : List ℕ) (k : ℕ)
      → round tolower c (search_crlf xs) xs ≡ goes_on d k
      → parse_text c xs ≡ parse_text d (drop k xs)
  unfolding parse_text
  parse_text-step c d xs k e =
      let less =
        fewer xs k d
          (subst (Takes (search_crlf xs)) e (round-Takes tolower c (search_crlf xs) xs)) in
      scan-round (length xs) c xs
      ∙ ap (after_round (length xs) xs) e
      ∙ scan-fuel (length xs) (suc (length (drop k xs))) d (drop k xs) less (omega arith)

  pub parse_text-end :
      (c d : HttpContext) (xs : List ℕ) (k : ℕ)
      → round tolower c (search_crlf xs) xs ≡ completes d k
      → parse_text c xs ≡ some (true, d, drop k xs)
  unfolding parse_text
  parse_text-end c d xs k e = scan-round (length xs) c xs ∙ ap (after_round (length xs) xs) e

  -- The buffer that is left is valid, and its readable bytes are those that the reference leaves.
  abbrev Agrees : Option (Bool × HttpContext × Buffer) → Option Outcome → Type 0
  Agrees none o = o ≡ none
  Agrees (some r) o = (some (outcome_of r) ≡ o) × IsValid r.2

  parse_loop-Agrees :
      (n : ℕ) (c : HttpContext) (b : Buffer)
      → IsValid b
      → Agrees (parse_loop tolower n c b) (scan n c (readable_view b))
  unfolding parse_loop scan find_crlf retrieve_until
  parse_loop-Agrees zero c b v = refl
  parse_loop-Agrees (suc n) c b v =
      let xs : List ℕ = readable_view b in
      elim (round tolower c (search_crlf xs) xs)
        as (λ r.
          Agrees
            (elim r as (λ _. Option (Bool × HttpContext × Buffer)) [
              | goes_on d used ↦ parse_loop tolower n d (retrieve_until b used)
              | stops ok d ↦ some (ok, d, b)
              | completes d used ↦ some (true, d, retrieve_until b used)
            ])
            (elim r as (λ _. Option Outcome) [
              | goes_on d used ↦ scan n d (drop used xs)
              | stops ok d ↦ some (ok, d, xs)
              | completes d used ↦ some (true, d, drop used xs)
            ])) [
              | goes_on d k ↦
                  subst (λ ys. Agrees (parse_loop tolower n d (retrieve_until b k)) (scan n d ys))
                    (view-retrieve k v)
                    (parse_loop-Agrees n d (retrieve_until b k) (retrieve-IsValid k v))
              | stops ok d ↦ (refl, v)
              | completes d k ↦
                  (ap (λ ys. some (true, d, ys)) (view-retrieve k v), retrieve-IsValid k v)
            ]

  -- On every buffer, in every state: `parse` returns after as many rounds as there are readable bytes, and
  -- one more, at most; it leaves a valid buffer; and its result, the context and the bytes left to read are
  -- those of the reference that cuts lines off a list of bytes.
  pub parse_refines :
      (c : HttpContext) (b : Buffer)
      → IsValid b
      → (ok : Bool) × (d : HttpContext) × (b' : Buffer) × (parse tolower c b ≡ some (ok, d, b'))
        × IsValid b'
        × (parse_text c (readable_view b) ≡ some (ok, d, readable_view b'))
  unfolding parse parse_text
  parse_refines c b v =
      let xs : List ℕ = readable_view b in
      let agrees = parse_loop-Agrees (suc (readable_bytes b)) c b v in
      let returns = scan-returns (suc (length xs)) c xs (omega arith) in
      let fuel : suc (readable_bytes b) ≡ suc (length xs) =
        ap suc (sym (length-readable_view b v)) in
      meet (parse_loop tolower (suc (readable_bytes b)) c b) returns.0
        (ap (λ n. scan n c xs) fuel ∙ returns.1) (sym fuel) agrees refl
    where
      meet :
          (o : Option (Bool × HttpContext × Buffer)) (r : Outcome)
          → scan (suc (readable_bytes b)) c (readable_view b) ≡ some r
          → suc (length (readable_view b)) ≡ suc (readable_bytes b)
          → Agrees o (scan (suc (readable_bytes b)) c (readable_view b))
          → parse_loop tolower (suc (readable_bytes b)) c b ≡ o
          → (ok : Bool) × (d : HttpContext) × (b' : Buffer) × (parse_loop tolower
                (suc (readable_bytes b))
                c
                b
              ≡ some (ok, d, b'))
            × IsValid b'
            × (scan (suc (length (readable_view b))) c (readable_view b)
                ≡ some (ok, d, readable_view b'))
      meet none r e f a g = cc
      meet (some (ok, d, b')) r e f a g =
          (ok, d, b', g, a.1, ap (λ n. scan n c (readable_view b)) f ∙ sym a.0)
