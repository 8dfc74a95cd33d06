-- ===== src/Mirror/Held.antt =====
-- The positions of the mirror in engine/src/IPortfolioView.cpp keep positive quantities.
use mathlib.Core.Option.{some-injective}
use mynyra.Prelude.{
  ◌≡◌, refl, sym, ap, ◌∙◌, str_eq, str_eq_iff, inl, inr, Bool, true, false, not, ◌&&◌, ◌||◌, String,
  Option, none, some, List, [], ◌∷◌, All, arith, Bool-cases, is_empty, Option-cases, subst,
}
use mynyra.Prelude.Int.{ℤ, pos, ◌+ℤ◌, ◌-ℤ◌, ◌≤ℤ◌, ltb_ℤ, leb_ℤ, eq_ℤ, int64_max}
use mynyra.Prelude.Dictionary.{
  IsDictionary, assign-IsDictionary, remove-IsDictionary, find, assign, remove, All-find,
  All-assign, All-remove,
}
use mynyra.Contracts.{
  PositionSnapshot, ExecutionEvent, is_positive, is_zero, same_effect, PositionEffect,
}
use mynyra.Mirror.State.{IntentState}
use mynyra.Mirror.Executions.{
  quantities_valid, event_is_invalid, delta_units, is_other, lowered, position_key, position_or_new,
  open_position, close_position_of, moved_positions,
}
use mynyra.Mirror.Reconciling.{position_is_invalid, emplace_position, replacement}

abbrev pub IsHeld : PositionSnapshot → Type 0
IsHeld p = is_positive p.quantity ≡ true

-- A filled quantity of an intent is between nothing and all of it.
abbrev pub IsBounded : IntentState → Type 0
IsBounded s =
    (pos 0 ≤ℤ s.cumulative_filled.units)
    × (s.cumulative_filled.units ≤ℤ s.intent.exact_quantity.units)

-- Each position stands under its logical id.
abbrev pub AllKeyed : List (String × PositionSnapshot) → Type 0
AllKeyed positions =
    All (λ (e : String × PositionSnapshot). e.1.logical_position_id ≡ e.0) positions

assign-AllKeyed :
    (key : String) (p : PositionSnapshot) (positions : List (String × PositionSnapshot))
    → AllKeyed positions
    → p.logical_position_id ≡ key
    → AllKeyed (assign key p positions)
unfolding assign
assign-AllKeyed key p [] h e = (e, tt)
assign-AllKeyed key p ((k, q) ∷ rest) (f, h) e = elim (Bool-cases (str_eq key k)) [
  | inl same ↦ rw same (e, h)
  | inr other ↦ rw other (f, assign-AllKeyed key p rest h e)
]

remove-AllKeyed :
    (key : String) (positions : List (String × PositionSnapshot))
    → AllKeyed positions
    → AllKeyed (remove key positions)
unfolding remove
remove-AllKeyed key [] h = tt
remove-AllKeyed key ((k, q) ∷ rest) (f, h) = elim (Bool-cases (str_eq key k)) [
  | inl same ↦ rw same h
  | inr other ↦ rw other (f, remove-AllKeyed key rest h)
]

pub find-AllKeyed :
    (key : String) (positions : List (String × PositionSnapshot)) {p : PositionSnapshot}
    → AllKeyed positions
    → find key positions ≡ some p
    → p.logical_position_id ≡ key
unfolding find
find-AllKeyed key [] h e = cc
find-AllKeyed key ((k, q) ∷ rest) {p} (f, h) e = elim (Bool-cases (str_eq key k)) [
  | inl same ↦
      let found : q ≡ p = some-injective _ _ (rw same at e) in
      ap (λ (t : PositionSnapshot). t.logical_position_id) (sym found)
      ∙ f
      ∙ sym ((str_eq_iff key k).0 same)
  | inr other ↦ find-AllKeyed key rest h (rw other at e)
]

-- Positions of positive quantities, each under a key of its own, which is its logical id.
abbrev pub AllHeld : List (String × PositionSnapshot) → Type 0
AllHeld positions =
    All (λ (e : String × PositionSnapshot). IsHeld e.1) positions
    × IsDictionary positions
    × AllKeyed positions

assign-AllHeld :
    (key : String) (p : PositionSnapshot) (positions : List (String × PositionSnapshot))
    → AllHeld positions
    → IsHeld p
    → p.logical_position_id ≡ key
    → AllHeld (assign key p positions)
assign-AllHeld key p positions (all, alone, keyed) up same = (
  All-assign IsHeld key p positions all up,
  assign-IsDictionary key p positions alone,
  assign-AllKeyed key p positions keyed same,
)

remove-AllHeld :
    (key : String) (positions : List (String × PositionSnapshot))
    → AllHeld positions
    → AllHeld (remove key positions)
remove-AllHeld key positions (all, alone, keyed) = (
  All-remove IsHeld key positions all,
  remove-IsDictionary key positions alone,
  remove-AllKeyed key positions keyed,
)

-- What the checks of an event leave.
pub record IsProgress (e : ExecutionEvent) (s : IntentState) : Type 0 where
  pub low : pos 0 ≤ℤ e.cumulative_filled_quantity.units
  pub high : e.cumulative_filled_quantity.units ≤ℤ s.intent.exact_quantity.units
  more : ltb_ℤ s.cumulative_filled.units e.cumulative_filled_quantity.units ≡ true
  fits : leb_ℤ e.cumulative_filled_quantity.units int64_max ≡ true

limit :
    (a b : ℤ) → leb_ℤ (pos 0) b ≡ true → leb_ℤ a (int64_max -ℤ b) ≡ true → leb_ℤ a int64_max ≡ true
unfolding ◌-ℤ◌
limit a b h k = ground (arith, h, k)

pub event_inv :
    (e : ExecutionEvent) (s : IntentState) → event_is_invalid e s ≡ false → IsProgress e s
unfolding event_is_invalid quantities_valid
event_inv e s h = record {
  low = ground arith;
  high = ground arith;
  more = ground arith;
  fits =
      limit e.cumulative_filled_quantity.units e.remaining_quantity.units (ground arith)
        (ground arith);
}

rise : (a b : ℤ) → ltb_ℤ a b ≡ true → ltb_ℤ (pos 0) (b -ℤ a) ≡ true
unfolding ◌-ℤ◌
rise a b h = ground (arith, h)

delta_positive :
    (e : ExecutionEvent) (s : IntentState) → IsProgress e s → ltb_ℤ (pos 0) (delta_units e s) ≡ true
delta_positive e s h = rise _ _ h.more

sum_positive : (a b : ℤ) → pos 0 ≤ℤ a → ltb_ℤ (pos 0) b ≡ true → ltb_ℤ (pos 0) (a +ℤ b) ≡ true
unfolding ◌+ℤ◌
sum_positive a b h k = ground (arith, h, k)

open_position-AllHeld :
    (e : ExecutionEvent) (s : IntentState) (key : String) (p : PositionSnapshot)
    (positions : List (String × PositionSnapshot))
    → IsProgress e s
    → pos 0 ≤ℤ p.quantity.units
    → (is_empty p.logical_position_id ≡ false → IsHeld p × (p.logical_position_id ≡ key))
    → (ltb_ℤ (int64_max -ℤ delta_units e s) p.quantity.units ≡ true → IsHeld p)
    → AllHeld positions
    → AllHeld (open_position e s key p positions).1
unfolding open_position
open_position-AllHeld e s key p positions progress low named over h =
    elim (Bool-cases (not (is_empty p.logical_position_id) && is_other p s)) [
      | inl other ↦
          let (up, same) = named (ground (arith, other)) in
          rw other (assign-AllHeld key p positions h up same)
      | inr same ↦ elim (Bool-cases (ltb_ℤ (int64_max -ℤ delta_units e s) p.quantity.units)) [
        | inl much ↦ rw (same, much) (assign-AllHeld key _ positions h (over much) refl)
        | inr room ↦
            rw (same, room)
              (assign-AllHeld key _ positions h (sum_positive _ _ low (delta_positive e s progress))
                refl)
      ]
    ]

close_position_of-AllHeld :
    (s : IntentState) (delta : ℤ) (key : String) (o : Option PositionSnapshot)
    (positions : List (String × PositionSnapshot))
    → find key positions ≡ o
    → AllHeld positions
    → AllHeld (close_position_of s delta key o positions).1
unfolding close_position_of ◌-ℤ◌
close_position_of-AllHeld s delta key none positions found h = h
close_position_of-AllHeld s delta key (some p) positions found h =
    elim (Bool-cases (is_other p s || ltb_ℤ p.quantity.units delta)) [
      | inl other ↦ rw other h
      | inr fits ↦ elim (Bool-cases (is_zero (lowered p delta).quantity)) [
        | inl all ↦ rw (fits, all) (remove-AllHeld key positions h)
        | inr part ↦
            rw (fits, part)
              (assign-AllHeld key _ positions h
                (left p.quantity.units delta (ground (arith, fits)) part)
                (find-AllKeyed key positions h.2 found))
      ]
    ]
  where
    left :
        (a b : ℤ)
        → ltb_ℤ a b ≡ false
        → eq_ℤ (a -ℤ b) (pos 0) ≡ false
        → ltb_ℤ (pos 0) (a -ℤ b) ≡ true
    left a b h k = ground (arith, h, k)

-- The delta of an event fits 64 bits.
delta_fits :
    (a b : ℤ)
    → pos 0 ≤ℤ a
    → leb_ℤ b int64_max ≡ true
    → ltb_ℤ (int64_max -ℤ (b -ℤ a)) (pos 0) ≡ false
unfolding ◌-ℤ◌
delta_fits a b h k = ground (arith, h, k)

absurd : {A : Type 0} (b : Bool) → b ≡ false → b ≡ true → A
absurd b h k = cc

opened-AllHeld :
    (e : ExecutionEvent) (s : IntentState) (key : String) (o : Option PositionSnapshot)
    (positions : List (String × PositionSnapshot))
    → IsProgress e s
    → IsBounded s
    → find key positions ≡ o
    → AllHeld positions
    → AllHeld (open_position e s key (position_or_new o) positions).1
opened-AllHeld e s key none positions progress bounded found h =
    open_position-AllHeld e s key (position_or_new none) positions progress (ground arith)
      (λ named. cc named) (λ over. absurd _ (delta_fits _ _ bounded.0 progress.fits) over) h
opened-AllHeld e s key (some p) positions progress bounded found h =
    let up = All-find IsHeld key positions h.0 found in
    open_position-AllHeld e s key p positions progress (ground (arith, up))
      (λ _. (up, find-AllKeyed key positions h.2 found)) (λ _. up) h

pub moved_positions-AllHeld :
    (e : ExecutionEvent) (s : IntentState) (positions : List (String × PositionSnapshot))
    → IsProgress e s
    → IsBounded s
    → AllHeld positions
    → AllHeld (moved_positions e s positions).1
unfolding moved_positions
moved_positions-AllHeld e s positions progress bounded h =
    elim (Bool-cases (same_effect s.intent.effect PositionEffect.opens)) [
      | inl opens ↦ rw opens (
          opened-AllHeld e s (position_key e s) (find (position_key e s) positions) positions
            progress bounded refl h)
      | inr closes ↦ rw closes (
          close_position_of-AllHeld s (delta_units e s) (position_key e s)
            (find (position_key e s) positions) positions refl h)
    ]

emplace_position-AllHeld :
    (p : PositionSnapshot) (o : Option PositionSnapshot)
    (kept next : List (String × PositionSnapshot))
    → IsHeld p
    → AllHeld kept
    → emplace_position p o kept ≡ some next
    → AllHeld next
emplace_position-AllHeld p none kept next up h e =
    subst AllHeld (some-injective _ _ e) (assign-AllHeld p.logical_position_id p kept h up refl)
emplace_position-AllHeld p (some q) kept next up h e = cc

valid_held : (p : PositionSnapshot) → position_is_invalid p ≡ false → IsHeld p
unfolding position_is_invalid
valid_held p h = ground arith

pub replacement-AllHeld :
    (ps : List PositionSnapshot) (kept next : List (String × PositionSnapshot))
    → AllHeld kept
    → replacement ps kept ≡ some next
    → AllHeld next
unfolding replacement
replacement-AllHeld [] kept next h e = subst AllHeld (some-injective _ _ e) h
replacement-AllHeld (p ∷ ps) kept next h e = elim (Bool-cases (position_is_invalid p)) [
  | inl invalid ↦ cc (rw invalid at e)
  | inr valid ↦ elim (Option-cases (emplace_position p (find p.logical_position_id kept) kept)) [
    | inl twice ↦ cc (rw (valid, twice) at e)
    | inr (more, added) ↦
        replacement-AllHeld ps more next
          (emplace_position-AllHeld p (find p.logical_position_id kept) kept more
            (valid_held p valid) h added)
          (rw (valid, added) at e)
  ]
]
