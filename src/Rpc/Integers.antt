-- ===== src/Rpc/Integers.antt =====
-- rpc/rpc_message.h: `append_be` and `read_be` are inverse on words of 2, 4 and 8 bytes.
use game_frame.Prelude.{
  ℕ, zero, suc, ◌+◌, ◌*◌, ◌/◌, ◌%◌, ◌^◌, ◌≤◌, ◌<◌, ◌≡◌, refl, sym, ap₂, ◌∙◌, List, [], ◌∷◌, ◌++◌,
  arith, append_assoc, append-nil, bit_or_fields, IsByte, All, drop, get_or, All-get_or, All-drop,
}
use native.Mathlib.Nat.{pow-suc, pow-zero, le_trans, mod-eq_of_lt, mul-le-mul_left}
use game_frame.Rpc.{append_be, read_be, read_be_from}

-- the bytes that `append_be` appends
abbrev pub be_bytes : ℕ → ℕ → List ℕ
be_bytes zero v = []
be_bytes (suc width) v = v / 2 ^ (8 * width) % 256 ∷ be_bytes width v

pub append_be-eq : (width : ℕ) (s : List ℕ) (v : ℕ) → append_be width s v ≡ s ++ be_bytes width v
unfolding append_be
append_be-eq zero s v = sym (append-nil s)
append_be-eq (suc width) s v =
    append_be-eq width (s ++ (v / 2 ^ (8 * width) % 256) ∷ []) v
    ∙ append_assoc s ((v / 2 ^ (8 * width) % 256) ∷ []) (be_bytes width v)

-- the number that `n` bytes stand for behind the digits of `v`
abbrev pub be_value : ℕ → List ℕ → ℕ → ℕ
be_value zero p v = v
be_value (suc n) p v = be_value n (drop 1 p) (v * 2 ^ 8 + get_or p 0 0)

pow_256_pos : (n : ℕ) → 0 < 256 ^ n
pow_256_pos zero = omega arith
pow_256_pos (suc n) = omega (arith, pow-suc 256 n, pow_256_pos n)

shift_bound :
    (v a n m : ℕ) → a < 256 → (v + 1) * (256 ^ n * 256) ≤ m → (v * 2 ^ 8 + a + 1) * 256 ^ n ≤ m
shift_bound v a n m ha h = let fit : (a + 1) * 256 ^ n ≤ 256 * 256 ^ n = grind arith in omega arith

read_be_from-eq :
    (width n : ℕ) (p : List ℕ) (v : ℕ)
    → All IsByte p
    → (v + 1) * 256 ^ n ≤ 2 ^ (8 * width)
    → read_be_from width n p v ≡ be_value n p v
unfolding read_be_from
read_be_from-eq width zero p v bytes h = refl
read_be_from-eq width (suc n) p v bytes h =
    rw (bit_or_fields 8 v (get_or p 0 0) byte, mod-eq_of_lt no_wrap)
      (read_be_from-eq width n (drop 1 p) (v * 2 ^ 8 + get_or p 0 0) (All-drop IsByte 1 p bytes)
        bound)
  where
    byte : get_or p 0 0 < 256
    byte = All-get_or IsByte p 0 0 (omega arith) bytes

    bound : (v * 2 ^ 8 + get_or p 0 0 + 1) * 256 ^ n ≤ 2 ^ (8 * width)
    bound = shift_bound v (get_or p 0 0) n (2 ^ (8 * width)) byte (rw (pow-suc 256 n) at h)

    no_wrap : v * 2 ^ 8 + get_or p 0 0 < 2 ^ (8 * width)
    no_wrap =
        let pos : 1 ≤ 256 ^ n = pow_256_pos n in
        let grows : (v * 2 ^ 8 + get_or p 0 0 + 1) * 1 ≤ (v * 2 ^ 8 + get_or p 0 0 + 1) * 256 ^ n =
          mul-le-mul_left (v * 2 ^ 8 + get_or p 0 0 + 1) pos in
        omega (arith, bound)

-- `read_be` is the plain value of the bytes: nothing is lost by the cuts to the width.
pub read_be-eq_2 : (p : List ℕ) → All IsByte p → read_be 2 p ≡ be_value 2 p 0
unfolding read_be
read_be-eq_2 p bytes = read_be_from-eq 2 2 p 0 bytes (omega arith)

pub read_be-eq_4 : (p : List ℕ) → All IsByte p → read_be 4 p ≡ be_value 4 p 0
unfolding read_be
read_be-eq_4 p bytes = read_be_from-eq 4 4 p 0 bytes (omega arith)

pub read_be-eq_8 : (p : List ℕ) → All IsByte p → read_be 8 p ≡ be_value 8 p 0
unfolding read_be
read_be-eq_8 p bytes = read_be_from-eq 8 8 p 0 bytes (omega arith)

pub be_value-be_bytes_2 :
    (v : ℕ) (rest : List ℕ) → v < 2 ^ 16 → be_value 2 (be_bytes 2 v ++ rest) 0 ≡ v
be_value-be_bytes_2 v rest h = omega arith

pub be_value-be_bytes_4 :
    (v : ℕ) (rest : List ℕ) → v < 2 ^ 32 → be_value 4 (be_bytes 4 v ++ rest) 0 ≡ v
be_value-be_bytes_4 v rest h = omega arith

pub be_value-be_bytes_8 :
    (v : ℕ) (rest : List ℕ) → v < 2 ^ 64 → be_value 8 (be_bytes 8 v ++ rest) 0 ≡ v
be_value-be_bytes_8 v rest h = omega arith

pub be_bytes-be_value_2 :
    (a b : ℕ) (rest : List ℕ)
    → IsByte a
    → IsByte b
    → be_bytes 2 (be_value 2 (a ∷ b ∷ rest) 0) ≡ a ∷ b ∷ []
be_bytes-be_value_2 a b rest ha hb = ap₂ ◌∷◌ (omega arith) (ap₂ ◌∷◌ (omega arith) refl)

pub be_bytes-be_value_4 :
    (a b c d : ℕ) (rest : List ℕ)
    → All IsByte (a ∷ b ∷ c ∷ d ∷ [])
    → be_bytes 4 (be_value 4 (a ∷ b ∷ c ∷ d ∷ rest) 0) ≡ a ∷ b ∷ c ∷ d ∷ []
be_bytes-be_value_4 a b c d rest h =
    ap₂ ◌∷◌ (omega arith)
      (ap₂ ◌∷◌ (omega arith) (ap₂ ◌∷◌ (omega arith) (ap₂ ◌∷◌ (omega arith) refl)))

pub be_bytes-be_value_8 :
    (a b c d e f g i : ℕ) (rest : List ℕ)
    → All IsByte (a ∷ b ∷ c ∷ d ∷ e ∷ f ∷ g ∷ i ∷ [])
    → be_bytes 8 (be_value 8 (a ∷ b ∷ c ∷ d ∷ e ∷ f ∷ g ∷ i ∷ rest) 0)
      ≡ a ∷ b ∷ c ∷ d ∷ e ∷ f ∷ g ∷ i ∷ []
be_bytes-be_value_8 a b c d e f g i rest h = ap₂ ◌∷◌ (omega arith) (
    ap₂ ◌∷◌ (omega arith) (
      ap₂ ◌∷◌ (omega arith) (
        ap₂ ◌∷◌ (omega arith) (
          ap₂ ◌∷◌ (omega arith)
            (ap₂ ◌∷◌ (omega arith) (ap₂ ◌∷◌ (omega arith) (ap₂ ◌∷◌ (omega arith) refl)))))))

be_value-lt : (n : ℕ) (p : List ℕ) (v : ℕ) → All IsByte p → be_value n p v < (v + 1) * 256 ^ n
be_value-lt zero p v h = omega (arith, pow-zero 256)
be_value-lt (suc n) p v h =
    le_trans (be_value-lt n (drop 1 p) (v * 2 ^ 8 + get_or p 0 0) (All-drop IsByte 1 p h)) (
      rw (pow-suc 256 n) (
        shift_bound v (get_or p 0 0) n ((v + 1) * (256 ^ n * 256))
          (All-get_or IsByte p 0 0 (omega arith) h) (omega arith)))

pub value_2-lt : (p : List ℕ) → All IsByte p → be_value 2 p 0 < 2 ^ 16
value_2-lt p h = be_value-lt 2 p 0 h

pub value_4-lt : (p : List ℕ) → All IsByte p → be_value 4 p 0 < 2 ^ 32
value_4-lt p h = be_value-lt 4 p 0 h

pub value_8-lt : (p : List ℕ) → All IsByte p → be_value 8 p 0 < 2 ^ 64
value_8-lt p h = be_value-lt 8 p 0 h
