-- ===== src/Prelude/Lists.antt =====
-- Lists measured and indexed by native numbers, under the library's names, with overwriting in place.
use Prim.Native.Nat.{ℕ, zero, suc, ◌+◌, ◌-◌, ◌≤◌, ◌<◌, min}
use mathlib.Core.Path.{◌≡◌, refl, ap}
use mathlib.Core.Logic.{◌≢◌}
use mathlib.Core.List.{List, [], ◌∷◌, ◌++◌}
use mathlib.Core.Option.{Option, none, some}
use native.Mathlib.Omega.{arith}

module _ {ℓ} {A : Type ℓ} where
  abbrev pub length : List A → ℕ
  length [] = 0
  length (x ∷ xs) = suc (length xs)

  abbrev pub take : ℕ → List A → List A
  take zero xs = []
  take (suc n) [] = []
  take (suc n) (x ∷ xs) = x ∷ take n xs

  abbrev pub drop : ℕ → List A → List A
  drop zero xs = xs
  drop (suc n) [] = []
  drop (suc n) (x ∷ xs) = drop n xs

  abbrev pub get_or : List A → ℕ → A → A
  get_or [] i d = d
  get_or (x ∷ xs) zero d = x
  get_or (x ∷ xs) (suc i) d = get_or xs i d

  abbrev pub get_elem? : List A → ℕ → Option A
  get_elem? [] i = none
  get_elem? (x ∷ xs) zero = some x
  get_elem? (x ∷ xs) (suc i) = get_elem? xs i

  -- A write out of bounds changes nothing.
  abbrev pub set : List A → ℕ → A → List A
  set [] i v = []
  set (x ∷ xs) zero v = v ∷ xs
  set (x ∷ xs) (suc i) v = x ∷ set xs i v

  abbrev pub replicate : ℕ → A → List A
  replicate zero a = []
  replicate (suc n) a = a ∷ replicate n a

  -- `memcpy` to index `i`: what would fall past the end is not written.
  abbrev pub overwrite : List A → ℕ → List A → List A
  overwrite [] i ys = []
  overwrite (x ∷ xs) (suc i) ys = x ∷ overwrite xs i ys
  overwrite (x ∷ xs) zero [] = x ∷ xs
  overwrite (x ∷ xs) zero (y ∷ ys) = y ∷ overwrite xs zero ys

  pub length-append : (xs ys : List A) → length (xs ++ ys) ≡ length xs + length ys
  length-append [] ys = omega arith
  length-append (x ∷ xs) ys = omega (arith, length-append xs ys)

  pub length-take : (n : ℕ) (xs : List A) → length (take n xs) ≡ min n (length xs)
  length-take zero xs = omega arith
  length-take (suc n) [] = omega arith
  length-take (suc n) (x ∷ xs) = omega (arith, length-take n xs)

  pub length-drop : (n : ℕ) (xs : List A) → length (drop n xs) ≡ length xs - n
  length-drop zero xs = omega arith
  length-drop (suc n) [] = omega arith
  length-drop (suc n) (x ∷ xs) = omega (arith, length-drop n xs)

  pub length-replicate : (n : ℕ) (a : A) → length (replicate n a) ≡ n
  length-replicate zero a = refl
  length-replicate (suc n) a = ap suc (length-replicate n a)

  pub length-set : (xs : List A) (i : ℕ) (v : A) → length (set xs i v) ≡ length xs
  length-set [] i v = refl
  length-set (x ∷ xs) zero v = refl
  length-set (x ∷ xs) (suc i) v = ap suc (length-set xs i v)

  pub length-overwrite :
      (xs : List A) (i : ℕ) (ys : List A) → length (overwrite xs i ys) ≡ length xs
  length-overwrite [] i ys = refl
  length-overwrite (x ∷ xs) (suc i) ys = ap suc (length-overwrite xs i ys)
  length-overwrite (x ∷ xs) zero [] = refl
  length-overwrite (x ∷ xs) zero (y ∷ ys) = ap suc (length-overwrite xs zero ys)

  pub take-all : (n : ℕ) (xs : List A) → length xs ≤ n → take n xs ≡ xs
  take-all zero [] h = refl
  take-all zero (x ∷ xs) h = absurd (omega arith)
  take-all (suc n) [] h = refl
  take-all (suc n) (x ∷ xs) h = ap (◌∷◌ x) (take-all n xs (omega arith))

  pub drop-all : (n : ℕ) (xs : List A) → length xs ≤ n → drop n xs ≡ []
  drop-all zero [] h = refl
  drop-all zero (x ∷ xs) h = absurd (omega arith)
  drop-all (suc n) [] h = refl
  drop-all (suc n) (x ∷ xs) h = drop-all n xs (omega arith)

  pub take-append_left : (n : ℕ) (xs ys : List A) → n ≤ length xs → take n (xs ++ ys) ≡ take n xs
  take-append_left zero xs ys h = refl
  take-append_left (suc n) [] ys h = absurd (omega arith)
  take-append_left (suc n) (x ∷ xs) ys h = ap (◌∷◌ x) (take-append_left n xs ys (omega arith))

  pub drop-append_left :
      (n : ℕ) (xs ys : List A) → n ≤ length xs → drop n (xs ++ ys) ≡ drop n xs ++ ys
  drop-append_left zero xs ys h = refl
  drop-append_left (suc n) [] ys h = absurd (omega arith)
  drop-append_left (suc n) (x ∷ xs) ys h = drop-append_left n xs ys (omega arith)

  pub take-length_append : (n : ℕ) (xs ys : List A) → length xs ≡ n → take n (xs ++ ys) ≡ xs
  take-length_append zero [] ys h = refl
  take-length_append zero (x ∷ xs) ys h = absurd (omega arith)
  take-length_append (suc n) [] ys h = absurd (omega arith)
  take-length_append (suc n) (x ∷ xs) ys h = ap (◌∷◌ x) (take-length_append n xs ys (omega arith))

  pub drop-length_append : (n : ℕ) (xs ys : List A) → length xs ≡ n → drop n (xs ++ ys) ≡ ys
  drop-length_append zero [] ys h = refl
  drop-length_append zero (x ∷ xs) ys h = absurd (omega arith)
  drop-length_append (suc n) [] ys h = absurd (omega arith)
  drop-length_append (suc n) (x ∷ xs) ys h = drop-length_append n xs ys (omega arith)

pub drop_past {ℓ} :
    {A : Type ℓ} (xs : List A) (y : A) (ys : List A) → drop (suc (length xs)) (xs ++ y ∷ ys) ≡ ys
drop_past [] y ys = refl
drop_past (x ∷ xs) y ys = drop_past xs y ys

pub drop-nil {ℓ} : {A : Type ℓ} (n : ℕ) → drop n (let e : List A = [] in e) ≡ []
drop-nil zero = refl
drop-nil (suc n) = refl

pub take-nil {ℓ} : {A : Type ℓ} (n : ℕ) → take n (let e : List A = [] in e) ≡ []
take-nil zero = refl
take-nil (suc n) = refl

module _ {ℓ} {A : Type ℓ} where
  pub drop-drop : (m n : ℕ) (xs : List A) → drop m (drop n xs) ≡ drop (n + m) xs
  drop-drop m zero xs = let e : zero + m ≡ m = omega arith in rw e
  drop-drop m (suc n) [] = rw (drop-nil m, drop-nil (suc n + m))
  drop-drop m (suc n) (x ∷ xs) =
      let e : suc n + m ≡ suc (n + m) = omega arith in rw e (drop-drop m n xs)

  pub drop-take : (m n : ℕ) (xs : List A) → drop m (take n xs) ≡ take (n - m) (drop m xs)
  drop-take zero n xs = let e : n - zero ≡ n = omega arith in rw e
  drop-take (suc m) zero xs = let e : zero - suc m ≡ zero = omega arith in rw e
  drop-take (suc m) (suc n) [] = rw (take-nil (suc n - suc m))
  drop-take (suc m) (suc n) (x ∷ xs) =
      let e : suc n - suc m ≡ n - m = omega arith in rw e (drop-take m n xs)

  pub get_or-set_self :
      (xs : List A) (i : ℕ) (v d : A) → i < length xs → get_or (set xs i v) i d ≡ v
  get_or-set_self [] i v d h = absurd (omega arith)
  get_or-set_self (x ∷ xs) zero v d h = refl
  get_or-set_self (x ∷ xs) (suc i) v d h = get_or-set_self xs i v d (omega arith)

  pub get_or-set_ne :
      (xs : List A) (i j : ℕ) (v d : A) → i ≢ j → get_or (set xs i v) j d ≡ get_or xs j d
  get_or-set_ne [] i j v d h = refl
  get_or-set_ne (x ∷ xs) zero zero v d h = absurd (h refl)
  get_or-set_ne (x ∷ xs) zero (suc j) v d h = refl
  get_or-set_ne (x ∷ xs) (suc i) zero v d h = refl
  get_or-set_ne (x ∷ xs) (suc i) (suc j) v d h = get_or-set_ne xs i j v d (λ e. h (ap suc e))

  pub take-take : (m n : ℕ) (xs : List A) → m ≤ n → take m (take n xs) ≡ take m xs
  take-take zero n xs h = refl
  take-take (suc m) zero xs h = absurd (omega arith)
  take-take (suc m) (suc n) [] h = refl
  take-take (suc m) (suc n) (x ∷ xs) h = ap (◌∷◌ x) (take-take m n xs (omega arith))

  pub get_or-take : (xs : List A) (n i : ℕ) (d : A) → i < n → get_or (take n xs) i d ≡ get_or xs i d
  get_or-take xs zero i d h = absurd (omega arith)
  get_or-take [] (suc n) i d h = refl
  get_or-take (x ∷ xs) (suc n) zero d h = refl
  get_or-take (x ∷ xs) (suc n) (suc i) d h = get_or-take xs n i d (omega arith)

  pub take-append-drop : (n : ℕ) (xs : List A) → take n xs ++ drop n xs ≡ xs
  take-append-drop zero xs = refl
  take-append-drop (suc n) [] = refl
  take-append-drop (suc n) (x ∷ xs) = ap (◌∷◌ x) (take-append-drop n xs)

  overwrite_prefix :
      (xs : List A) (i : ℕ) (ys : List A)
      → i + length ys ≤ length xs
      → take (i + length ys) (overwrite xs i ys) ≡ take i xs ++ ys
  overwrite_prefix [] zero [] q = refl
  overwrite_prefix [] zero (y ∷ ys) q = absurd (omega arith)
  overwrite_prefix [] (suc i) ys q = absurd (omega arith)
  overwrite_prefix (x ∷ xs) zero [] q = refl
  overwrite_prefix (x ∷ xs) zero (y ∷ ys) q =
      let e : zero + suc (length ys) ≡ suc (zero + length ys) = omega arith in
      rw e (ap (◌∷◌ y) (overwrite_prefix xs zero ys (omega arith)))
  overwrite_prefix (x ∷ xs) (suc i) ys q =
      let e : suc i + length ys ≡ suc (i + length ys) = omega arith in
      rw e (ap (◌∷◌ x) (overwrite_prefix xs i ys (omega arith)))

  -- Bytes written behind a region, seen through the region that reaches past them.
  pub overwrite_extends :
      (xs : List A) (r i : ℕ) (ys : List A)
      → r ≤ i
      → i + length ys ≤ length xs
      → take (i + length ys - r) (drop r (overwrite xs i ys)) ≡ take (i - r) (drop r xs) ++ ys
  overwrite_extends xs zero i ys p q =
      let e : i + length ys - zero ≡ i + length ys = omega arith in
      let f : i - zero ≡ i = omega arith in rw (e, f) (overwrite_prefix xs i ys q)
  overwrite_extends [] (suc r) i ys p q = absurd (omega arith)
  overwrite_extends (x ∷ xs) (suc r) zero ys p q = absurd (omega arith)
  overwrite_extends (x ∷ xs) (suc r) (suc i) ys p q =
      let e : suc i + length ys - suc r ≡ i + length ys - r = omega arith in
      let f : suc i - suc r ≡ i - r = omega arith in
      rw (e, f) (overwrite_extends xs r i ys (omega arith) (omega arith))

-- A predicate of every element.
abbrev pub All {ℓ κ} : {A : Type ℓ} → (A → Type κ) → List A → Type κ
All P [] = Unit
All P (x ∷ xs) = P x × All P xs

pub All-drop {ℓ κ} :
    {A : Type ℓ} (P : A → Type κ) (n : ℕ) (xs : List A) → All P xs → All P (drop n xs)
All-drop P zero xs h = h
All-drop P (suc n) [] h = h
All-drop P (suc n) (x ∷ xs) h = All-drop P n xs h.1

pub All-take {ℓ κ} :
    {A : Type ℓ} (P : A → Type κ) (n : ℕ) (xs : List A) → All P xs → All P (take n xs)
All-take P zero xs h = tt
All-take P (suc n) [] h = h
All-take P (suc n) (x ∷ xs) h = (h.0, All-take P n xs h.1)

pub All-append {ℓ κ} :
    {A : Type ℓ} (P : A → Type κ) (xs ys : List A) → All P xs → All P ys → All P (xs ++ ys)
All-append P [] ys h k = k
All-append P (x ∷ xs) ys h k = (h.0, All-append P xs ys h.1 k)

pub All-split {ℓ κ} :
    {A : Type ℓ} (P : A → Type κ) (xs ys : List A) → All P (xs ++ ys) → All P xs × All P ys
All-split P [] ys h = (tt, h)
All-split P (x ∷ xs) ys h = let rest = All-split P xs ys h.1 in ((h.0, rest.0), rest.1)

pub All-get_or {ℓ κ} :
    {A : Type ℓ} (P : A → Type κ) (xs : List A) (i : ℕ) (d : A) → P d → All P xs → P (get_or xs i d)
All-get_or P [] i d z h = z
All-get_or P (x ∷ xs) zero d z h = h.0
All-get_or P (x ∷ xs) (suc i) d z h = All-get_or P xs i d z h.1
