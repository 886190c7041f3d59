-- ===== src/Http/Context/Lines.antt =====
-- http/http_context.h: the rounds of `parse` over the readable bytes as a list.
use game_frame.Prelude.{
  ℕ, zero, suc, ◌+◌, ◌≤◌, ◌≡◌, ◌⊎◌, inl, inr, refl, ap, Bool, true, false, List, ◌++◌, Option, none,
  some, length, take, take-append_left,
}
use game_frame.Http.Request.{HttpRequest}
use game_frame.Http.Context.{
  ParseState, expect_request_line, expect_headers, got_all, HttpContext, parse_request_line,
  parse_header, Round, goes_on, stops, completes, line_round, header_round, round_in, round,
}

-- A round that takes bytes takes a line and its end.
abbrev pub Takes : Option ℕ → Round → Type 0
Takes o (goes_on d k) = (i : ℕ) × (o ≡ some i) × (k ≡ i + 2)
Takes o (stops ok d) = (o ≡ none) ⊎ (ok ≡ false) ⊎ (d.state ≡ got_all)
Takes o (completes d k) = (d.state ≡ got_all) × ((i : ℕ) × (o ≡ some i) × (k ≡ i + 2))

module _ (tolower : ℕ → ℕ) where
  line_round-Takes : (i : ℕ) (p : Bool × HttpRequest) → Takes (some i) (line_round tolower i p)
  unfolding line_round
  line_round-Takes i (true, r) = (i, refl, refl)
  line_round-Takes i (false, r) = inr (inl refl)

  header_round-Takes : (i : ℕ) (p : Bool × HttpRequest) → Takes (some i) (header_round tolower i p)
  unfolding header_round
  header_round-Takes i (true, r) = (i, refl, refl)
  header_round-Takes i (false, r) = inr (inl refl)

  round_in-Takes :
      (s : ParseState) (o : Option ℕ) (view : List ℕ) (r : HttpRequest)
      → Takes o (round_in tolower s o view r)
  unfolding round_in
  round_in-Takes got_all o view r = inr (inr refl)
  round_in-Takes expect_request_line none view r = inl refl
  round_in-Takes expect_request_line (some i) view r =
      line_round-Takes i (parse_request_line (take i view) r)
  round_in-Takes expect_headers none view r = inl refl
  round_in-Takes expect_headers (some zero) view r = (refl, (0, refl, refl))
  round_in-Takes expect_headers (some (suc i)) view r =
      header_round-Takes (suc i) (parse_header tolower (take (suc i) view) r)

  pub round-Takes :
      (c : HttpContext) (o : Option ℕ) (view : List ℕ) → Takes o (round tolower c o view)
  unfolding round
  round-Takes c o view = round_in-Takes c.state o view c.request

  -- A round reads no further than the line end that was found.
  round_in-prefix :
      (s : ParseState) (i : ℕ) (xs ys : List ℕ) (r : HttpRequest)
      → i ≤ length xs
      → round_in tolower s (some i) (xs ++ ys) r ≡ round_in tolower s (some i) xs r
  unfolding round_in
  round_in-prefix got_all i xs ys r h = refl
  round_in-prefix expect_request_line i xs ys r h =
      ap (λ l. line_round tolower i (parse_request_line l r)) (take-append_left i xs ys h)
  round_in-prefix expect_headers zero xs ys r h = refl
  round_in-prefix expect_headers (suc i) xs ys r h =
      ap (λ l. header_round tolower (suc i) (parse_header tolower l r))
        (take-append_left (suc i) xs ys h)

  pub round-prefix :
      (c : HttpContext) (i : ℕ) (xs ys : List ℕ)
      → i ≤ length xs
      → round tolower c (some i) (xs ++ ys) ≡ round tolower c (some i) xs
  unfolding round
  round-prefix c i xs ys h = round_in-prefix c.state i xs ys c.request h

  round_in-waits :
      (s : ParseState) (xs : List ℕ) (r : HttpRequest)
      → round_in tolower s none xs r ≡ stops true (record { state = s; request = r })
  unfolding round_in
  round_in-waits got_all xs r = refl
  round_in-waits expect_request_line xs r = refl
  round_in-waits expect_headers xs r = refl

  pub round-waits : (c : HttpContext) (xs : List ℕ) → round tolower c none xs ≡ stops true c
  unfolding round
  round-waits c xs = round_in-waits c.state xs c.request
