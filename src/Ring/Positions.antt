-- ===== src/Ring/Positions.antt =====
-- The positions of engine/include/LockFreeRingBuffer.hpp go round.
use native.Mathlib.Nat.{mod-eq_of_lt, mod_self}
use mynyra.Prelude.{
  ℕ, zero, suc, ◌+◌, ◌%◌, ◌≤◌, ◌<◌, ◌≡◌, ◌≢◌, refl, sym, ap, ◌∙◌, ◌⊎◌, inl, inr, List, [], ◌∷◌,
  ◌++◌, arith,
}
use mynyra.Ring.Buffer.{increment, write, items}

split : (a b : ℕ) → a ≤ b → (a < b) ⊎ (a ≡ b)
split a b h = omega arith

module _ (capacity : ℕ) where
  -- The position some steps on.
  unfoldable pub advance : ℕ → ℕ → ℕ
  advance zero index = index
  advance (suc n) index = advance n (increment capacity index)

  pub increment_cases :
      (i : ℕ)
      → i < capacity
      → ((increment capacity i ≡ i + 1) × (i + 1 < capacity))
        ⊎ ((increment capacity i ≡ 0) × (i + 1 ≡ capacity))
  unfolding increment
  increment_cases i h = elim (split (i + 1) capacity (omega arith)) [
    | inl less ↦ inl (mod-eq_of_lt less, less)
    | inr same ↦ inr (ap (λ (n : ℕ). n % capacity) same ∙ mod_self capacity, same)
  ]

  pub increment-lt : (i : ℕ) → i < capacity → increment capacity i < capacity
  increment-lt i h = elim (increment_cases i h) [
    | inl (e, fits) ↦ omega (arith, e)
    | inr (e, last) ↦ omega (arith, e)
  ]

  pub advance_cases :
      (n i : ℕ)
      → i < capacity
      → n < capacity
      → ((advance n i ≡ i + n) × (i + n < capacity))
        ⊎ ((advance n i + capacity ≡ i + n) × (capacity ≤ i + n))
  unfolding advance
  advance_cases zero i h k = inl (omega arith, omega arith)
  advance_cases (suc n) i h k = elim (increment_cases i h) [
    | inl (e, fits) ↦
        elim (advance_cases n (increment capacity i) (omega (arith, e)) (omega arith)) [
          | inl (a, b) ↦ inl (omega (arith, e, a), omega (arith, e, b))
          | inr (a, b) ↦ inr (omega (arith, e, a), omega (arith, e, b))
        ]
    | inr (e, last) ↦
        elim (advance_cases n (increment capacity i) (omega (arith, e)) (omega arith)) [
          | inl (a, b) ↦ inr (omega (arith, e, a), omega (arith, e, last))
          | inr (a, b) ↦ inr (omega (arith, e, a, b), omega (arith, e, last))
        ]
  ]

  pub increment-advance : (n i : ℕ) → increment capacity (advance n i) ≡ advance (suc n) i
  unfolding advance
  increment-advance zero i = refl
  increment-advance (suc n) i = increment-advance n (increment capacity i)

  pub advance-lt : (n i : ℕ) → i < capacity → n < capacity → advance n i < capacity
  advance-lt n i h k = elim (advance_cases n i h k) [
    | inl (a, b) ↦ omega (arith, a)
    | inr (a, b) ↦ omega (arith, a)
  ]

  round : (n i : ℕ) → i < capacity → n < capacity → n + 1 ≡ capacity → advance (suc n) i ≡ i
  round n i h k full = elim (advance_cases n i h k) [
    | inl (a, b) ↦ elim (increment_cases (advance n i) (omega (arith, a))) [
      | inl (c, d) ↦ sym (increment-advance n i) ∙ omega (arith, a, c)
      | inr (c, d) ↦ sym (increment-advance n i) ∙ omega (arith, a, c)
    ]
    | inr (a, b) ↦ elim (increment_cases (advance n i) (omega (arith, a))) [
      | inl (c, d) ↦ sym (increment-advance n i) ∙ omega (arith, a, c)
      | inr (c, d) ↦ sym (increment-advance n i) ∙ omega (arith, a, c)
    ]
  ]

  -- With room for one more the head does not come round to the tail, and without it does.
  pub next-room : (n i : ℕ) → i < capacity → n < capacity → advance (suc n) i ≢ i → n + 1 < capacity
  next-room n i h k e = elim (split (n + 1) capacity (omega arith)) [
    | inl less ↦ less
    | inr same ↦ elim (e (round n i h k same)) [ ]
  ]

  pub next-full : (n i : ℕ) → i < capacity → n < capacity → advance (suc n) i ≡ i → n + 1 ≡ capacity
  next-full n i h k e = elim (split (n + 1) capacity (omega arith)) [
    | inr same ↦ same
    | inl less ↦ elim (advance_cases (suc n) i h (omega arith)) [
      | inl (a, b) ↦ omega (arith, a, e)
      | inr (a, b) ↦ omega (arith, a, e)
    ]
  ]

  -- No item lies at the head.
  pub passed : (n i h : ℕ) → i < capacity → suc n < capacity → h ≡ advance (suc n) i → i ≢ h
  passed n i h a b e = elim (advance_cases (suc n) i a b) [
    | inl (c, d) ↦ omega (arith, c, e)
    | inr (c, d) ↦ omega (arith, c, e)
  ]

  module _ {ℓ} {T : Type ℓ} where
    pub items-suc :
        (data_at : ℕ → T) (n i : ℕ)
        → items capacity data_at (suc n) i
          ≡ items capacity data_at n i ++ data_at (advance n i) ∷ []
    unfolding items advance
    items-suc data_at zero i = refl
    items-suc data_at (suc n) i =
        ap (λ (xs : List T). data_at i ∷ xs) (items-suc data_at n (increment capacity i))

    -- A write at the head leaves what is held.
    pub items-write :
        (data_at : ℕ → T) (value : T) (n i h : ℕ)
        → i < capacity
        → n < capacity
        → h ≡ advance n i
        → items capacity (write data_at h value) n i ≡ items capacity data_at n i
    unfolding items advance write
    items-write data_at value zero i h a b e = refl
    items-write data_at value (suc n) i h a b e =
        let apart : i ≢ h = passed n i h a b e in
        let later : items capacity (write data_at h value) n (increment capacity i)
            ≡ items capacity data_at n (increment capacity i) =
          elim (increment_cases i a) [
            | inl (c, d) ↦
                items-write data_at value n (increment capacity i) h (omega (arith, c))
                  (omega arith) e
            | inr (c, d) ↦
                items-write data_at value n (increment capacity i) h (omega (arith, c))
                  (omega arith) e
          ] in
        ground (arith, apart, later)
