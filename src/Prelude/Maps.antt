-- ===== src/Prelude/Maps.antt =====
-- Keyed containers: `std::unordered_map<std::uint64_t, V>` as an association list with one entry
-- for a key, and `std::unordered_set<std::string>` as a list of texts.
use Prim.Native.Nat.{ℕ}
use Prim.Native.String.{String}
use mathlib.Core.Path.{◌≡◌, subst}
use mathlib.Core.Logic.{◌≢◌, inl, inr}
use mathlib.Core.Bool.{Bool, true, false, ◌||◌}
use mathlib.Core.Option.{Option, none, some, some-injective}
use mathlib.Core.List.{List, [], ◌∷◌}
use native.Mathlib.Omega.{arith}
use text.Mathlib.Text.{◌==◌ as str_eq}
use text.Mathlib.TextPositions.{eq_refl as str_eq_refl}
use mynyra.Prelude.Tests.{◌==◌, Bool-cases, if◌then◌else◌}
use mynyra.Prelude.Lists.{All}

module _ {ℓ} {V : Type ℓ} where
  -- `find`, with `none` for `end()`.
  unfoldable pub lookup : ℕ → List (ℕ × V) → Option V
  lookup key [] = none
  lookup key (entry ∷ rest) = if key == entry.0 then some entry.1 else lookup key rest

  -- Assignment to `m[key]`, and `emplace` where the key is absent.
  unfoldable pub insert : ℕ → V → List (ℕ × V) → List (ℕ × V)
  insert key value [] = (key, value) ∷ []
  insert key value (entry ∷ rest) =
      if key == entry.0 then (key, value) ∷ rest else entry ∷ insert key value rest

  unfoldable pub erase : ℕ → List (ℕ × V) → List (ℕ × V)
  erase key [] = []
  erase key (entry ∷ rest) = if key == entry.0 then rest else entry ∷ erase key rest

  pub lookup-insert :
      (key other : ℕ) (value : V) (m : List (ℕ × V))
      → lookup other (insert key value m) ≡ (if key == other then some value else lookup other m)
  unfolding lookup insert
  lookup-insert key other value [] = ground arith
  lookup-insert key other value (entry ∷ rest) = ground (arith, lookup-insert key other value rest)

  pub lookup-insert_self : (k : ℕ) (v : V) (m : List (ℕ × V)) → lookup k (insert k v m) ≡ some v
  lookup-insert_self k v m = ground (arith, lookup-insert k k v m)

  pub lookup-insert_ne :
      (k j : ℕ) (v : V) (m : List (ℕ × V)) → k ≢ j → lookup j (insert k v m) ≡ lookup j m
  lookup-insert_ne k j v m h = ground (arith, lookup-insert k j v m)

  pub insert-insert :
      (k : ℕ) (v w : V) (m : List (ℕ × V)) → insert k w (insert k v m) ≡ insert k w m
  unfolding insert
  insert-insert k v w [] = ground arith
  insert-insert k v w ((i, u) ∷ m) = ground (arith, insert-insert k v w m)

  -- What holds of each value of a map holds of a value that is looked up, and survives an
  -- assignment of one more.
  pub All-lookup {κ} :
      (P : V → Type κ) (k : ℕ) (m : List (ℕ × V)) {v : V}
      → All (λ e. P e.1) m
      → lookup k m ≡ some v
      → P v
  unfolding lookup
  All-lookup P k [] _ e = cc
  All-lookup P k ((j, w) ∷ m) (p, ps) e = elim (Bool-cases (k == j)) [
    | inl hit ↦ subst P (some-injective _ _ (rw hit at e)) p
    | inr miss ↦ All-lookup P k m ps (rw miss at e)
  ]

  pub All-insert {κ} :
      (P : V → Type κ) (k : ℕ) (v : V) (m : List (ℕ × V))
      → All (λ e. P e.1) m
      → P v
      → All (λ e. P e.1) (insert k v m)
  unfolding insert
  All-insert P k v [] _ p = (p, tt)
  All-insert P k v ((j, w) ∷ m) (q, qs) p = ground (arith, All-insert P k v m qs p)

-- Membership of a text.
unfoldable pub contains : String → List String → Bool
contains s [] = false
contains s (t ∷ ts) = str_eq t s || contains s ts

pub contains-head : (s : String) (ts : List String) → contains s (s ∷ ts) ≡ true
unfolding contains
contains-head s ts = ground (arith, str_eq_refl s)

pub contains-tail :
    (s t : String) (ts : List String) → contains s ts ≡ true → contains s (t ∷ ts) ≡ true
unfolding contains
contains-tail s t ts h = ground arith

-- No text twice.
abbrev pub AllDistinct : List String → Type 0
AllDistinct [] = Unit {0}
AllDistinct (t ∷ ts) = (contains t ts ≡ false) × AllDistinct ts
