-- ===== src/Http/Context/Chunks.antt =====
-- http/http_context.h: a request that arrives in pieces is parsed like one that arrives whole.
use game_frame.Prelude.{
  ℕ, zero, suc, ◌≤◌, ◌<◌, ◌≡◌, ◌≢◌, inl, inr, sym, ap, ◌∙◌, subst, true, false, List, [], ◌++◌,
  none, some, length, drop, length-append, drop-append_left, arith, Option-cases, some-inj,
}
use mathlib.Core.Option
use game_frame.Buffer.{Buffer, readable_view, search_crlf, append}
use game_frame.Buffer.Regions.{IsValid, HasRoom, append-IsValid}
use game_frame.Buffer.Contents.{view-append}
use game_frame.Buffer.Crlf.{search_crlf-append}
use game_frame.Http.Context.{got_all, HttpContext, Round, goes_on, stops, completes, round, parse}
use game_frame.Http.Context.Lines.{Takes, round-Takes, round-prefix, round-waits}
use game_frame.Http.Context.Parsing.{
  outcome_of, scan, after_round, scan-round, scan-zero, parse_text, parse_text_lem, fewer,
  scan-fuel, parse_refines,
}

module _ (tolower : ℕ → ℕ) where
  -- The round over the longer text, when the shorter one has a line.
  round_longer :
      (c : HttpContext) (xs zs : List ℕ) (i : ℕ)
      → search_crlf xs ≡ some i
      → round tolower c (search_crlf (xs ++ zs)) (xs ++ zs) ≡ round tolower c (search_crlf xs) xs
  round_longer c xs zs i e =
      let found = search_crlf-append xs zs i e in
      ap (λ o. round tolower c o (xs ++ zs)) found.0
      ∙ round-prefix tolower c i xs zs (omega (arith, found.1))
      ∙ ap (λ o. round tolower c o xs) (sym e)

  -- A text whose scan stops for want of a line goes on when more has come.
  scan-append :
      (n m₁ m₂ : ℕ) (c d : HttpContext) (xs ys zs : List ℕ)
      → scan tolower n c xs ≡ some (true, d, ys)
      → d.state ≢ got_all
      → length (xs ++ zs) < m₁
      → length (ys ++ zs) < m₂
      → scan tolower m₁ c (xs ++ zs) ≡ scan tolower m₂ d (ys ++ zs)
  scan-append zero m₁ m₂ c d xs ys zs h unfinished p q = absurd (scan-zero tolower c xs _ h)
  scan-append (suc n) zero m₂ c d xs ys zs h unfinished p q = absurd (omega arith)
  scan-append (suc n) (suc m) m₂ c d xs ys zs h unfinished p q =
      elim (Option-cases (search_crlf xs)) [
        | inl no_line ↦
            let stuck : some (true, c, xs) ≡ some (true, d, ys) =
              sym (
                scan-round tolower n c xs
                ∙ ap (λ o. after_round tolower n xs (round tolower c o xs)) no_line
                ∙ ap (after_round tolower n xs) (round-waits tolower c xs))
              ∙ h in
            let same_context : c ≡ d = ap (λ o. o.1) (some-inj stuck) in
            let same_rest : xs ≡ ys = ap (λ o. o.2) (some-inj stuck) in
            scan-fuel tolower (suc m) m₂ c (xs ++ zs) p
              (subst (λ ts. length (ts ++ zs) < m₂) (sym same_rest) q)
            ∙ ap (λ e. scan tolower m₂ e (xs ++ zs)) same_context
            ∙ ap (λ ts. scan tolower m₂ d (ts ++ zs)) same_rest
        | inr (i, e) ↦
            scan-round tolower m c (xs ++ zs)
            ∙ ap (after_round tolower m (xs ++ zs)) (round_longer c xs zs i e)
            ∙ settle i e (round tolower c (search_crlf xs) xs)
                (round-Takes tolower c (search_crlf xs) xs) (sym (scan-round tolower n c xs) ∙ h)
                (λ d' k less f. scan-append n m m₂ d' d (drop k xs) ys zs f unfinished less q)
      ]
    where
      settle :
          (i : ℕ)
          → search_crlf xs ≡ some i
          → (r : Round) → Takes (search_crlf xs) r
          → after_round tolower n xs r ≡ some (true, d, ys)
          → ((d' : HttpContext) (k : ℕ)
              → length (drop k xs ++ zs) < m
              → scan tolower n d' (drop k xs) ≡ some (true, d, ys)
              → scan tolower m d' (drop k xs ++ zs) ≡ scan tolower m₂ d (ys ++ zs))
          → after_round tolower m (xs ++ zs) r ≡ scan tolower m₂ d (ys ++ zs)
      settle i e (goes_on d' k) t f below =
          let less = fewer tolower xs k d' t in
          let fits : k ≤ length xs =
            let found = (search_crlf-append xs [] t.0 t.1).1 in omega (arith, t.2, found) in
          ap (scan tolower m d') (drop-append_left k xs zs fits)
          ∙ below d' k (omega (arith, length-append (drop k xs) zs, length-append xs zs)) f
      settle i e (stops ok d') t f below = elim t [
        | inl no_line ↦ let bad : none ≡ some i = sym no_line ∙ e in cc
        | inr (inl failed) ↦ let bad : false ≡ true = sym failed ∙ ap (λ o. o.0) (some-inj f) in cc
        | inr (inr got) ↦
            absurd (unfinished (ap (λ x. x.state) (sym (ap (λ o. o.1) (some-inj f))) ∙ got))
      ]
      settle i e (completes d' k) t f below =
          absurd (unfinished (ap (λ x. x.state) (sym (ap (λ o. o.1) (some-inj f))) ∙ t.0))

  text-append :
      (c d : HttpContext) (xs ys zs : List ℕ)
      → parse_text tolower c xs ≡ some (true, d, ys)
      → d.state ≢ got_all
      → parse_text tolower c (xs ++ zs) ≡ parse_text tolower d (ys ++ zs)
  text-append c d xs ys zs h unfinished =
      parse_text_lem tolower c (xs ++ zs)
      ∙ scan-append (suc (length xs)) (suc (length (xs ++ zs))) (suc (length (ys ++ zs))) c d xs ys
          zs (sym (parse_text_lem tolower c xs) ∙ h) unfinished (omega arith) (omega arith)
      ∙ sym (parse_text_lem tolower d (ys ++ zs))

  as_text :
      (c : HttpContext) (b : Buffer)
      → IsValid b
      → Option.map outcome_of (parse tolower c b) ≡ parse_text tolower c (readable_view b)
  as_text c b v =
      let (ok, e, rest, ran, valid, text) = parse_refines tolower c b v in
      ap (Option.map outcome_of) ran ∙ sym text

  -- Bytes that wait for their line end may come with any later ones: when `parse` has stopped with a request
  -- that is not complete, parsing on from there, with more bytes appended to the buffer, gives the result,
  -- the context and the bytes left that parsing everything at once would have given.
  pub parse-append :
      (c d : HttpContext) (b b' : Buffer) (bytes : List ℕ)
      → IsValid b
      → HasRoom b (length bytes)
      → HasRoom b' (length bytes)
      → parse tolower c b ≡ some (true, d, b')
      → d.state ≢ got_all
      → Option.map outcome_of (parse tolower c (append b bytes))
        ≡ Option.map outcome_of (parse tolower d (append b' bytes))
  parse-append c d b b' bytes v room room' h unfinished =
      let (ok, e, rest, ran, valid, text) = parse_refines tolower c b v in
      let same : (ok, e, rest) ≡ (true, d, b') = some-inj (sym ran ∙ h) in
      let valid' : IsValid b' = subst IsValid (ap (λ r. r.2) same) valid in
      let text' : parse_text tolower c (readable_view b) ≡ some (true, d, readable_view b') =
        text ∙ ap (λ r. some (outcome_of r)) same in
      let whole = view-append bytes v room in
      let later = view-append bytes valid' room' in
      as_text c (append b bytes) (append-IsValid bytes v room)
      ∙ ap (parse_text tolower c) whole
      ∙ text-append c d (readable_view b) (readable_view b') bytes text' unfinished
      ∙ ap (parse_text tolower d) (sym later)
      ∙ sym (as_text d (append b' bytes) (append-IsValid bytes valid' room'))
