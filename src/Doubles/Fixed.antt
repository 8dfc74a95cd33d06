-- ===== src/Doubles/Fixed.antt =====
-- Fixed-point numbers of four digits in place of doubles, for the concrete runs of the tests.
use mynyra.Prelude.{ℕ, suc, ◌+◌, if◌then◌else◌, ◌*◌, ◌/◌, ◌^◌, true}
use mynyra.Prelude.Int.{ℤ, pos, negsuc, ◌+ℤ◌, ◌-ℤ◌, ltb_ℤ, leb_ℤ, eq_ℤ}
use mynyra.Doubles.{Doubles}

abbrev pub size_of : ℤ → ℕ
size_of (pos n) = n
size_of (negsuc n) = suc n

abbrev pub sign_of : ℤ → ℤ → ℕ → ℤ
sign_of (pos a) (pos b) n = pos n
sign_of (negsuc a) (negsuc b) n = pos n
sign_of (pos a) (negsuc b) n = pos 0 -ℤ pos n
sign_of (negsuc a) (pos b) n = pos 0 -ℤ pos n

abbrev pub fixed : Doubles
fixed = record {
  Double = ℤ;
  literal = λ u d. sign_of u (pos 0) (size_of u * 10_000 / 10 ^ d);
  of_int = λ u. sign_of u (pos 0) (size_of u * 10_000);
  add = λ a b. a +ℤ b;
  sub = λ a b. a -ℤ b;
  mul = λ a b. sign_of a b (size_of a * size_of b / 10_000);
  div = λ a b. sign_of a b (size_of a * 10_000 / size_of b);
  sqrt = λ a. a;
  lt = ltb_ℤ;
  le = leb_ℤ;
  eq = eq_ℤ;
  is_finite = λ _. true;
  Extended = ℤ;
  extend = λ a. a;
  extended_of_int = λ u. sign_of u (pos 0) (size_of u * 10_000);
  extended_literal = λ u d. sign_of u (pos 0) (size_of u * 10_000 / 10 ^ d);
  epsilon = pos 0;
  extended_mul = λ a b. sign_of a b (size_of a * size_of b / 10_000);
  extended_sub = λ a b. a -ℤ b;
  extended_max = λ a b. if ltb_ℤ a b then b else a;
  extended_abs = λ a. pos (size_of a);
  truncate = λ a. sign_of a (pos 0) (size_of a / 10_000 * 10_000);
  round = λ a. sign_of a (pos 0) ((size_of a + 5_000) / 10_000 * 10_000);
  extended_lt = ltb_ℤ;
  to_int64 = λ a. sign_of a (pos 0) (size_of a / 10_000);
}
