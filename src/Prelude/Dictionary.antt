-- ===== src/Prelude/Dictionary.antt =====
-- `std::unordered_map<std::string, V>` as an association list with one entry for a key.
use Prim.Native.String.{String}
use mathlib.Core.Path.{◌≡◌, refl}
use mathlib.Core.Logic.{inl, inr}
use mathlib.Core.Bool.{false}
use mathlib.Core.Option.{Option, none, some}
use mathlib.Core.List.{List, [], ◌∷◌}
use native.Mathlib.Omega.{arith}
use text.Mathlib.Text.{◌==◌ as str_eq}
use text.Mathlib.TextEquality.{eq_iff as str_eq_iff}
use mynyra.Prelude.Tests.{Bool-cases, if◌then◌else◌}
use mynyra.Prelude.Lists.{All}

module _ {ℓ} {V : Type ℓ} where
  unfoldable pub find : String → List (String × V) → Option V
  find key [] = none
  find key (entry ∷ rest) = if str_eq key entry.0 then some entry.1 else find key rest

  -- Assignment to `m[key]`, to `m.at(key)` where the key is there, and `emplace` where it is not.
  unfoldable pub assign : String → V → List (String × V) → List (String × V)
  assign key value [] = (key, value) ∷ []
  assign key value (entry ∷ rest) =
      if str_eq key entry.0 then (key, value) ∷ rest else entry ∷ assign key value rest

  unfoldable pub remove : String → List (String × V) → List (String × V)
  remove key [] = []
  remove key (entry ∷ rest) = if str_eq key entry.0 then rest else entry ∷ remove key rest

  -- Each key has one entry.
  abbrev pub IsDictionary : List (String × V) → Type ℓ
  IsDictionary [] = Unit
  IsDictionary (entry ∷ rest) = (find entry.0 rest ≡ none) × IsDictionary rest

  pub find-assign :
      (key other : String) (value : V) (m : List (String × V))
      → find other (assign key value m) ≡ (if str_eq other key then some value else find other m)
  unfolding find assign
  find-assign key other value [] = refl
  find-assign key other value (entry ∷ rest) = ground (
    arith,
    find-assign key other value rest,
    str_eq_iff key entry.0,
    str_eq_iff other key,
    str_eq_iff other entry.0,
  )

  pub assign-IsDictionary :
      (key : String) (value : V) (m : List (String × V))
      → IsDictionary m
      → IsDictionary (assign key value m)
  unfolding assign find
  assign-IsDictionary key value [] h = (refl, tt)
  assign-IsDictionary key value (entry ∷ rest) (fresh, others) =
      elim (Bool-cases (str_eq key entry.0)) [
        | inl same ↦ ground (arith, str_eq_iff key entry.0)
        | inr other ↦ ground (
          arith,
          assign-IsDictionary key value rest others,
          find-assign key entry.0 value rest,
          str_eq_iff key entry.0,
          str_eq_iff entry.0 key,
        )
      ]

  pub find-remove_other :
      (key other : String) (m : List (String × V))
      → str_eq other key ≡ false
      → find other (remove key m) ≡ find other m
  unfolding find remove
  find-remove_other key other [] h = refl
  find-remove_other key other (entry ∷ rest) h = ground (
    arith,
    find-remove_other key other rest h,
    str_eq_iff key entry.0,
    str_eq_iff other entry.0,
    str_eq_iff other key,
  )

  pub find-remove_none :
      (key other : String) (m : List (String × V))
      → find other m ≡ none
      → find other (remove key m) ≡ none
  unfolding find remove
  find-remove_none key other [] h = refl
  find-remove_none key other (entry ∷ rest) h = ground (arith, find-remove_none key other rest)

  pub remove-IsDictionary :
      (key : String) (m : List (String × V)) → IsDictionary m → IsDictionary (remove key m)
  unfolding remove
  remove-IsDictionary key [] h = tt
  remove-IsDictionary key (entry ∷ rest) (fresh, others) =
      ground (arith, remove-IsDictionary key rest others, find-remove_none key entry.0 rest fresh)

  pub find-remove :
      (key : String) (m : List (String × V)) → IsDictionary m → find key (remove key m) ≡ none
  unfolding find remove
  find-remove key [] h = refl
  find-remove key (entry ∷ rest) (fresh, others) =
      ground (arith, find-remove key rest others, str_eq_iff key entry.0)

  pub All-find {κ} :
      (P : V → Type κ) (key : String) (m : List (String × V)) {v : V}
      → All (λ e. P e.1) m
      → find key m ≡ some v
      → P v
  unfolding find
  All-find P key [] h e = cc
  All-find P key ((k, w) ∷ m) (p, ps) e = elim (Bool-cases (str_eq key k)) [
    | inl hit ↦ ground arith
    | inr miss ↦ All-find P key m ps (rw miss at e)
  ]

  pub All-assign {κ} :
      (P : V → Type κ) (key : String) (v : V) (m : List (String × V))
      → All (λ e. P e.1) m
      → P v
      → All (λ e. P e.1) (assign key v m)
  unfolding assign
  All-assign P key v [] h p = (p, tt)
  All-assign P key v ((k, w) ∷ m) (q, qs) p = ground (arith, All-assign P key v m qs p)

  pub All-remove {κ} :
      (P : V → Type κ) (key : String) (m : List (String × V))
      → All (λ e. P e.1) m
      → All (λ e. P e.1) (remove key m)
  unfolding remove
  All-remove P key [] h = tt
  All-remove P key ((k, w) ∷ m) (q, qs) = ground (arith, All-remove P key m qs)
