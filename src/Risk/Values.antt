-- ===== src/Risk/Values.antt =====
-- Equality of decimals in engine/src/RiskEngine.cpp is equality of their values.
use mynyra.Prelude.{
  ℕ, zero, suc, ◌+◌, ◌-◌, ◌≤◌, ◌≡◌, refl, sym, ap, ◌∙◌, Bool, true, false, not, Option, none, some,
  arith, leb, if◌then◌else◌, Bool-cases, inl, inr,
}
use mynyra.Prelude.Int.{ℤ, pos, negsuc, eq_ℤ, is_int64}
use mynyra.Contracts.{Decimal64}
use mynyra.Risk.Decimals.{times_ten, too_wide, raise_units, equal_units, decimal_equal}

-- An integer times a power of ten.
unfoldable pub scaled : ℕ → ℤ → ℤ
scaled zero u = u
scaled (suc n) u = scaled n (times_ten u)

-- A raised number that is out of range stays so.
grows : (u : ℤ) → is_int64 u ≡ false → is_int64 (times_ten u) ≡ false
grows (pos n) h = ground arith
grows (negsuc n) h = ground arith

scaled_grows : (n : ℕ) (u : ℤ) → is_int64 u ≡ false → is_int64 (scaled n u) ≡ false
unfolding scaled
scaled_grows zero u h = h
scaled_grows (suc n) u h = scaled_grows n (times_ten u) (grows u h)

too_wide_lem : (u : ℤ) → too_wide u ≡ not (is_int64 (times_ten u))
unfolding too_wide
too_wide_lem (pos n) = ground arith
too_wide_lem (negsuc n) = ground arith

raise_wide : (n : ℕ) (u : ℤ) → too_wide u ≡ true → raise_units (suc n) u ≡ none
unfolding raise_units
raise_wide n u e =
    ap
      (λ (b : Bool). elim b as (λ _. Option ℤ) [
        | true ↦ none
        | false ↦ raise_units n (times_ten u)
      ])
      e

raise_narrow :
    (n : ℕ) (u : ℤ) → too_wide u ≡ false → raise_units (suc n) u ≡ raise_units n (times_ten u)
unfolding raise_units
raise_narrow n u e =
    ap
      (λ (b : Bool). elim b as (λ _. Option ℤ) [
        | true ↦ none
        | false ↦ raise_units n (times_ten u)
      ])
      e

-- The loop gives the exact number, if every `int64_t` on its way holds it.
raise_units_lem :
    (n : ℕ) (u : ℤ)
    → is_int64 u ≡ true
    → raise_units n u ≡ (if is_int64 (scaled n u) then some (scaled n u) else none)
unfolding raise_units scaled
raise_units_lem zero u h = rw h refl
raise_units_lem (suc n) u h = elim (Bool-cases (is_int64 (times_ten u))) [
  | inl fits ↦
      raise_narrow n u (too_wide_lem u ∙ ap not fits) ∙ raise_units_lem n (times_ten u) fits
  | inr wide ↦
      raise_wide n u (too_wide_lem u ∙ ap not wide) ∙ rw (scaled_grows n (times_ten u) wide) refl
]

eq_times_ten : (a b : ℤ) → eq_ℤ (times_ten a) (times_ten b) ≡ eq_ℤ a b
eq_times_ten (pos a) (pos b) = ground arith
eq_times_ten (pos a) (negsuc b) = ground arith
eq_times_ten (negsuc a) (pos b) = ground arith
eq_times_ten (negsuc a) (negsuc b) = ground arith

scaled_cancel : (n : ℕ) (a b : ℤ) → eq_ℤ (scaled n a) (scaled n b) ≡ eq_ℤ a b
unfolding scaled
scaled_cancel zero a b = refl
scaled_cancel (suc n) a b = scaled_cancel n (times_ten a) (times_ten b) ∙ eq_times_ten a b

scaled_add : (m n k : ℕ) (u : ℤ) → k ≡ m + n → scaled k u ≡ scaled n (scaled m u)
unfolding scaled
scaled_add zero n k u e = (let same : k ≡ n = omega arith in ap (λ (t : ℕ). scaled t u) same)
scaled_add (suc m) n zero u e = ground arith
scaled_add (suc m) n (suc k) u e = scaled_add m n k (times_ten u) (omega arith)

-- Two raised numbers, of which one is not raised.
equal_raised :
    (a b : ℤ)
    → is_int64 b ≡ true
    → equal_units (if is_int64 a then some a else none) (some b) ≡ eq_ℤ a b
equal_raised a b h = elim (Bool-cases (is_int64 a)) [
  | inl fits ↦ rw fits refl
  | inr wide ↦ rw wide (sym (differs a b h wide))
]
  where
    differs : (a b : ℤ) → is_int64 b ≡ true → is_int64 a ≡ false → eq_ℤ a b ≡ false
    differs (pos a) (pos b) h w = ground arith
    differs (pos a) (negsuc b) h w = ground arith
    differs (negsuc a) (pos b) h w = ground arith
    differs (negsuc a) (negsuc b) h w = ground arith

eq_sym : (a b : ℤ) → eq_ℤ a b ≡ eq_ℤ b a
eq_sym a b = ground arith

equal_sym : (a b : Option ℤ) → equal_units a b ≡ equal_units b a
equal_sym none none = refl
equal_sym none (some b) = refl
equal_sym (some a) none = refl
equal_sym (some a) (some b) = eq_sym a b

-- Two decimals whose first has the smaller scale.
equal_lower :
    (m n : ℕ) (a b : ℤ)
    → is_int64 a ≡ true
    → is_int64 b ≡ true
    → m ≤ n
    → equal_units (raise_units (n - m) a) (some b) ≡ eq_ℤ (scaled n a) (scaled m b)
equal_lower m n a b ha hb h =
    ap (λ (o : Option ℤ). equal_units o (some b)) (raise_units_lem (n - m) a ha)
    ∙ equal_raised (scaled (n - m) a) b hb
    ∙ sym (scaled_cancel m (scaled (n - m) a) b)
    ∙ ap (λ (t : ℤ). eq_ℤ t (scaled m b)) (sym (scaled_add (n - m) m n a (omega arith)))

unraised : (n m : ℕ) (b : ℤ) → n ≤ m → raise_units (n - m) b ≡ some b
unfolding raise_units
unraised n m b h =
    (let none_needed : n - m ≡ 0 = omega arith in ap (λ (t : ℕ). raise_units t b) none_needed)

-- Two decimals with 64-bit units compare equal exactly where their values are equal, whatever
-- their scales and whatever overflows while a scale is raised.
pub decimal_equal_exact :
    (left right : Decimal64)
    → is_int64 left.units ≡ true
    → is_int64 right.units ≡ true
    → decimal_equal left right
      ≡ eq_ℤ (scaled right.scale left.units) (scaled left.scale right.units)
unfolding decimal_equal
decimal_equal_exact left right hl hr = elim (Bool-cases (leb left.scale right.scale)) [
  | inl lower ↦
      ap (equal_units (raise_units (right.scale - left.scale) left.units))
        (unraised left.scale right.scale right.units (ground arith))
      ∙ equal_lower left.scale right.scale left.units right.units hl hr (ground arith)
  | inr higher ↦
      ap (λ (o : Option ℤ). equal_units o (raise_units (left.scale - right.scale) right.units))
        (unraised right.scale left.scale left.units (ground arith))
      ∙ equal_sym (some left.units) (raise_units (left.scale - right.scale) right.units)
      ∙ equal_lower right.scale left.scale right.units left.units hr hl (ground arith)
      ∙ eq_sym (scaled left.scale right.units) (scaled right.scale left.units)
]
