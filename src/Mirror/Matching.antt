-- ===== src/Mirror/Matching.antt =====
-- The position that an execution of engine/src/IPortfolioView.cpp moves is one of the order's symbol, side and
-- scale.
use Prim.Native.String.{len}
use text.Mathlib.TextPositions.{len-append}
use mynyra.Prelude.{
  ℕ, ◌+◌, ◌≡◌, refl, sym, ap, ◌∙◌, inl, inr, Bool, true, false, not, ◌&&◌, ◌||◌, String,
  str_eq_refl, str_eq_iff, Option, none, some, List, arith, Bool-cases, is_empty, subst,
}
use mynyra.Prelude.Int.{ℤ, ◌-ℤ◌, ltb_ℤ, int64_max}
use mynyra.Prelude.Dictionary.{find, assign, find-assign, find-remove}
use mynyra.Contracts.{
  PositionSnapshot, PositionSide, PositionEffect, ExecutionEvent, is_zero, same_effect, same_side,
}
use mynyra.Adapter.State.{to_string}
use mynyra.Mirror.State.{applied, IntentState}
use mynyra.Mirror.Executions.{
  delta_units, is_other, lowered, key_or, provisional_position_id, position_key, position_or_new,
  open_position, close_position_of, moved_positions, event_is_invalid, quantities_valid,
}
use mynyra.Mirror.Held.{AllHeld, find-AllKeyed}

-- A position that an event of an order counts in its own units.
pub record IsFor (e : ExecutionEvent) (s : IntentState) (p : PositionSnapshot) : Type 0 where
  pub symbol : p.canonical_symbol ≡ s.intent.canonical_symbol
  pub side : p.side ≡ s.intent.side
  pub scale : p.quantity.scale ≡ e.cumulative_filled_quantity.scale

-- The same of the position that a key has, when it has one.
abbrev pub IsFree : ExecutionEvent → IntentState → Option PositionSnapshot → Type 0
IsFree e s none = Unit
IsFree e s (some p) = IsFor e s p

-- Whether an intent names a position by the empty text.
abbrev pub names_nothing : Option String → Bool
names_nothing none = false
names_nothing (some key) = is_empty key

longer : {b : Bool} → (n : ℕ) → 12 + n ≡ 0 → b ≡ false
longer n e = ground (arith, e)

provisional_named : (id : ℕ) → is_empty (provisional_position_id id) ≡ false
provisional_named id = elim (Bool-cases (is_empty (provisional_position_id id))) [
  | inl same ↦ longer (len (to_string id)) (
      sym (len-append "local-order-" (to_string id))
      ∙ ap len ((str_eq_iff (provisional_position_id id) "").0 same))
  | inr apart ↦ apart
]

key_named :
    (id : ℕ) (o : Option String)
    → names_nothing o ≡ false
    → is_empty (key_or (provisional_position_id id) o) ≡ false
key_named id none h = provisional_named id
key_named id (some key) h = h

same_side_lem : (a b : PositionSide) → same_side a b ≡ true → a ≡ b
same_side_lem PositionSide.long PositionSide.long h = refl
same_side_lem PositionSide.long PositionSide.short h = cc
same_side_lem PositionSide.short PositionSide.long h = cc
same_side_lem PositionSide.short PositionSide.short h = refl

event_scale :
    (e : ExecutionEvent) (s : IntentState)
    → event_is_invalid e s ≡ false
    → s.intent.exact_quantity.scale ≡ e.cumulative_filled_quantity.scale
unfolding event_is_invalid quantities_valid
event_scale e s h = ground arith

is_other-IsFor :
    (e : ExecutionEvent) (s : IntentState) (p : PositionSnapshot)
    → event_is_invalid e s ≡ false
    → is_other p s ≡ false
    → IsFor e s p
unfolding is_other
is_other-IsFor e s p valid h = record {
  symbol = (str_eq_iff p.canonical_symbol s.intent.canonical_symbol).0 (ground arith);
  side = same_side_lem p.side s.intent.side (ground arith);
  scale =
      let scales : p.quantity.scale ≡ s.intent.exact_quantity.scale = ground arith in
      scales ∙ event_scale e s valid;
}

pub find-assign_self :
    (key : String) (p : PositionSnapshot) (positions : List (String × PositionSnapshot))
    → find key (assign key p positions) ≡ some p
find-assign_self key p positions = ground (arith, find-assign key key p positions, str_eq_refl key)

-- What is known of the position before and after.
pub record IsSame (e : ExecutionEvent) (s : IntentState) (key : String)
    (before after : List (String × PositionSnapshot)) : Type 0 where
  pub old : IsFree e s (find key before)
  pub new : IsFree e s (find key after)

opened_free :
    (e : ExecutionEvent) (s : IntentState) (key : String) (o : Option PositionSnapshot)
    (positions : List (String × PositionSnapshot))
    → event_is_invalid e s ≡ false
    → is_empty key ≡ false
    → AllHeld positions
    → find key positions ≡ o
    → (not (is_empty (position_or_new o).logical_position_id) && is_other (position_or_new o) s)
      ≡ false
    → IsFree e s o
opened_free e s key none positions valid named h found same = tt
opened_free e s key (some p) positions valid named h found same =
    let keyed = find-AllKeyed key positions h.2 found in
    let full : is_empty p.logical_position_id ≡ false = ap is_empty keyed ∙ named in
    is_other-IsFor e s p valid (rw full at same)

open_position-IsSame :
    (e : ExecutionEvent) (s : IntentState) (key : String)
    (positions : List (String × PositionSnapshot))
    → event_is_invalid e s ≡ false
    → is_empty key ≡ false
    → AllHeld positions
    → (open_position e s key (position_or_new (find key positions)) positions).0 ≡ applied
    → IsSame e s key positions
        (open_position e s key (position_or_new (find key positions)) positions).1
unfolding open_position
open_position-IsSame e s key positions valid named all h =
    let p = position_or_new (find key positions) in
    elim (Bool-cases (not (is_empty p.logical_position_id) && is_other p s)) [
      | inl other ↦ cc (rw other at h)
      | inr same ↦ elim (Bool-cases (ltb_ℤ (int64_max -ℤ delta_units e s) p.quantity.units)) [
        | inl much ↦ cc (rw (same, much) at h)
        | inr room ↦
            rw (same, room)
              (record {
                old = opened_free e s key (find key positions) positions valid named all refl same;
                new =
                    subst (IsFree e s) (sym (find-assign_self key _ positions))
                      (record { symbol = refl; side = refl; scale = event_scale e s valid });
              })
      ]
    ]

close_position_of-IsSame :
    (e : ExecutionEvent) (s : IntentState) (delta : ℤ) (key : String) (o : Option PositionSnapshot)
    (positions : List (String × PositionSnapshot))
    → event_is_invalid e s ≡ false
    → AllHeld positions
    → find key positions ≡ o
    → (close_position_of s delta key o positions).0 ≡ applied
    → IsSame e s key positions (close_position_of s delta key o positions).1
unfolding close_position_of
close_position_of-IsSame e s delta key none positions valid all found h = cc
close_position_of-IsSame e s delta key (some p) positions valid all found h =
    elim (Bool-cases (is_other p s || ltb_ℤ p.quantity.units delta)) [
      | inl other ↦ cc (rw other at h)
      | inr fits ↦
          let of_order = is_other-IsFor e s p valid (ground (arith, fits)) in
          let old = subst (IsFree e s) (sym found) of_order in
          elim (Bool-cases (is_zero (lowered p delta).quantity)) [
            | inl none_left ↦
                rw (fits, none_left)
                  (record {
                    old = old;
                    new = subst (IsFree e s) (sym (find-remove key positions all.1)) tt;
                  })
            | inr part ↦
                rw (fits, part)
                  (record {
                    old = old;
                    new = subst (IsFree e s) (sym (find-assign_self key _ positions)) (record {
                      symbol = of_order.symbol;
                      side = of_order.side;
                      scale = of_order.scale;
                    });
                  })
          ]
    ]

pub moved_positions-IsSame :
    (e : ExecutionEvent) (s : IntentState) (positions : List (String × PositionSnapshot))
    → event_is_invalid e s ≡ false
    → names_nothing s.intent.logical_position_id ≡ false
    → AllHeld positions
    → (moved_positions e s positions).0 ≡ applied
    → IsSame e s (position_key e s) positions (moved_positions e s positions).1
unfolding moved_positions
moved_positions-IsSame e s positions valid named all h =
    elim (Bool-cases (same_effect s.intent.effect PositionEffect.opens)) [
      | inl opens ↦ rw opens (
          open_position-IsSame e s (position_key e s) positions valid
            (key_named e.local_order_id s.intent.logical_position_id named) all (rw opens at h))
      | inr closes ↦ rw closes (
          close_position_of-IsSame e s (delta_units e s) (position_key e s)
            (find (position_key e s) positions) positions valid all refl (rw closes at h))
    ]
