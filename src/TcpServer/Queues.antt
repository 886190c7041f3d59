-- ===== src/TcpServer/Queues.antt =====
-- src/event_loop.cpp: membership in the loops' queues, when a functor is added and when the first is taken.
use game_frame.Prelude.{
  ℕ, ◌≡◌, ◌⊎◌, inl, inr, refl, sym, subst, List, [], ◌∷◌, ◌++◌, ◌==◌, if◌then◌else◌, assign,
  Bool-cases, ==_iff, assign_self,
}
use mathlib.Core.List.Memᴰ
use mathlib.Core.List.{Memᴰ}

module _ {ℓ} {A : Type ℓ} where
  module _ (q : ℕ → List A) (l : ℕ) (t : A) where
    pub Memᴰ-enqueue_cases :
        (x : A) (j : ℕ) → Memᴰ x (assign q l (q l ++ t ∷ []) j) → Memᴰ x (q j) ⊎ (x ≡ t)
    Memᴰ-enqueue_cases x j h = elim (Bool-cases (j == l)) [
      | inl same ↦
          let at : j ≡ l = (==_iff j l).0 same in
          let m : Memᴰ x (q l ++ t ∷ []) =
            subst (λ b. Memᴰ x (if b then q l ++ t ∷ [] else q j)) same h in
          elim (Memᴰ.append_cases (q l) m) [
            | inl old ↦ inl (subst (λ i. Memᴰ x (q i)) (sym at) old)
            | inr new ↦ elim (Memᴰ.cases_cons new) [
              | inl e ↦ inr e
              | inr none_left ↦ absurd (Memᴰ.not-nil none_left)
            ]
          ]
      | inr other ↦ inl (subst (λ b. Memᴰ x (if b then q l ++ t ∷ [] else q j)) other h)
    ]

    pub Memᴰ-enqueue_old : (x : A) (j : ℕ) → Memᴰ x (q j) → Memᴰ x (assign q l (q l ++ t ∷ []) j)
    Memᴰ-enqueue_old x j h = elim (Bool-cases (j == l)) [
      | inl same ↦
          let at : j ≡ l = (==_iff j l).0 same in
          subst (λ b. Memᴰ x (if b then q l ++ t ∷ [] else q j)) (sym same)
            (Memᴰ.append_left (t ∷ []) (subst (λ i. Memᴰ x (q i)) at h))
      | inr other ↦ subst (λ b. Memᴰ x (if b then q l ++ t ∷ [] else q j)) (sym other) h
    ]

    pub Memᴰ-enqueue_new : Memᴰ t (assign q l (q l ++ t ∷ []) l)
    Memᴰ-enqueue_new =
        subst (Memᴰ t) (sym (assign_self q l (q l ++ t ∷ [])))
          (Memᴰ.append_right (q l) (Memᴰ.head refl))

  module _ (q : ℕ → List A) (l : ℕ) (t : A) (rest : List A) (first : q l ≡ t ∷ rest) where
    pub Memᴰ-dequeue_old : (x : A) (j : ℕ) → Memᴰ x (assign q l rest j) → Memᴰ x (q j)
    Memᴰ-dequeue_old x j h = elim (Bool-cases (j == l)) [
      | inl same ↦
          subst (λ i. Memᴰ x (q i)) (sym ((==_iff j l).0 same))
            (subst (Memᴰ x) (sym first)
              (Memᴰ.tail (subst (λ b. Memᴰ x (if b then rest else q j)) same h)))
      | inr other ↦ subst (λ b. Memᴰ x (if b then rest else q j)) other h
    ]

    pub Memᴰ-dequeue_cases : (x : A) (j : ℕ) → Memᴰ x (q j) → Memᴰ x (assign q l rest j) ⊎ (x ≡ t)
    Memᴰ-dequeue_cases x j h = elim (Bool-cases (j == l)) [
      | inl same ↦
          let m : Memᴰ x (t ∷ rest) =
            subst (Memᴰ x) first (subst (λ i. Memᴰ x (q i)) ((==_iff j l).0 same) h) in
          elim (Memᴰ.cases_cons m) [
            | inl e ↦ inr e
            | inr left ↦ inl (subst (λ b. Memᴰ x (if b then rest else q j)) (sym same) left)
          ]
      | inr other ↦ inl (subst (λ b. Memᴰ x (if b then rest else q j)) (sym other) h)
    ]
