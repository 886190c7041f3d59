-- ===== src/Prelude/Tables.antt =====
-- Tables that give every key a value, with one entry assigned.
use Prim.Native.Nat.{ℕ}
use mathlib.Core.Path.{◌≡◌, ap}
use mathlib.Core.Logic.{◌≢◌}
use game_frame.Prelude.Tests.{◌==◌, if◌then◌else◌, ==_refl, ne→==}

module _ {ℓ} {A : Type ℓ} where
  abbrev pub assign : (ℕ → A) → ℕ → A → ℕ → A
  assign f k v j = if j == k then v else f j

  pub assign_self : (f : ℕ → A) (k : ℕ) (v : A) → assign f k v k ≡ v
  assign_self f k v = ap (λ b. if b then v else f k) (==_refl k)

  pub assign-ne : (f : ℕ → A) (k j : ℕ) (v : A) → j ≢ k → assign f k v j ≡ f j
  assign-ne f k j v h = ap (λ b. if b then v else f j) (ne→== j k h)
