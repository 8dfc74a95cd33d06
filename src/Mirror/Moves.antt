-- ===== src/Mirror/Moves.antt =====
-- What an execution that the mirror of engine/src/IPortfolioView.cpp applies does to the positions.
use mynyra.Prelude.{
  ◌≡◌, refl, sym, ap, ◌∙◌, inl, inr, Bool, true, false, not, ◌&&◌, ◌||◌, String, str_eq, Option,
  none, some, List, arith, if◌then◌else◌, Bool-cases, is_empty,
}
use mynyra.Prelude.Int.{ℤ, pos, ◌+ℤ◌, ◌-ℤ◌, ltb_ℤ, eq_ℤ, int64_max}
use mynyra.Prelude.Dictionary.{
  IsDictionary, find, assign, find-assign, find-remove, find-remove_other,
}
use mynyra.Prelude.Maps.{lookup, contains, contains-head, lookup-insert_self}
use mynyra.Contracts.{PositionSnapshot, PositionEffect, ExecutionEvent, is_zero, same_effect}
use mynyra.Mirror.State.{MirrorApplyResult, applied, IntentState, BrokerPortfolioMirror}
use mynyra.Mirror.Executions.{
  delta_units, is_other, lowered, position_key, position_or_new, open_position, close_position_of,
  moved_positions, filled_state, settle_execution, execute_intent, apply_execution,
  event_is_invalid,
}
use mynyra.Mirror.Bounds.{IsMirror}
use mynyra.Mirror.Matching.{IsSame, names_nothing, find-assign_self, moved_positions-IsSame}

-- The quantity that stands under a key.
abbrev pub units_at : String → List (String × PositionSnapshot) → ℤ
units_at key positions = (position_or_new (find key positions)).quantity.units

abbrev pub shifted : Bool → ℤ → ℤ → ℤ
shifted opens units delta = if opens then units +ℤ delta else units -ℤ delta

-- A quantity moves under one key.
pub record IsShift (opens : Bool) (key : String) (delta : ℤ)
    (before after : List (String × PositionSnapshot)) : Type 0 where
  pub here : units_at key after ≡ shifted opens (units_at key before) delta
  pub elsewhere : (other : String) → str_eq other key ≡ false → find other after ≡ find other before

find-assign_other :
    (key other : String) (p : PositionSnapshot) (positions : List (String × PositionSnapshot))
    → str_eq other key ≡ false
    → find other (assign key p positions) ≡ find other positions
find-assign_other key other p positions h = ground (arith, find-assign key other p positions, h)

assign-IsShift :
    (opens : Bool) (key : String) (delta : ℤ) (p : PositionSnapshot)
    (positions : List (String × PositionSnapshot))
    → p.quantity.units ≡ shifted opens (units_at key positions) delta
    → IsShift opens key delta positions (assign key p positions)
assign-IsShift opens key delta p positions h = record {
  here =
      ap (λ (o : Option PositionSnapshot). (position_or_new o).quantity.units)
        (find-assign_self key p positions)
      ∙ h;
  elsewhere = λ other apart. find-assign_other key other p positions apart;
}

open_position-IsShift :
    (e : ExecutionEvent) (s : IntentState) (key : String)
    (positions : List (String × PositionSnapshot))
    → (open_position e s key (position_or_new (find key positions)) positions).0 ≡ applied
    → IsShift true key
        (delta_units e s)
        positions
        (open_position e s key (position_or_new (find key positions)) positions).1
unfolding open_position
open_position-IsShift e s key positions h =
    let p = position_or_new (find key positions) in
    elim (Bool-cases (not (is_empty p.logical_position_id) && is_other p s)) [
      | inl other ↦ cc (rw other at h)
      | inr same ↦ elim (Bool-cases (ltb_ℤ (int64_max -ℤ delta_units e s) p.quantity.units)) [
        | inl much ↦ cc (rw (same, much) at h)
        | inr room ↦ rw (same, room) (assign-IsShift true key (delta_units e s) _ positions refl)
      ]
    ]

emptied : (a b : ℤ) → eq_ℤ (a -ℤ b) (pos 0) ≡ true → a -ℤ b ≡ pos 0
emptied a b h = ground (arith, h)

close_position_of-IsShift :
    (s : IntentState) (delta : ℤ) (key : String) (o : Option PositionSnapshot)
    (positions : List (String × PositionSnapshot))
    → IsDictionary positions
    → find key positions ≡ o
    → (close_position_of s delta key o positions).0 ≡ applied
    → IsShift false key delta positions (close_position_of s delta key o positions).1
unfolding close_position_of
close_position_of-IsShift s delta key none positions alone found h = cc
close_position_of-IsShift s delta key (some p) positions alone found h =
    let before = ap (λ (o : Option PositionSnapshot). (position_or_new o).quantity.units) found in
    elim (Bool-cases (is_other p s || ltb_ℤ p.quantity.units delta)) [
      | inl other ↦ cc (rw other at h)
      | inr fits ↦ elim (Bool-cases (is_zero (lowered p delta).quantity)) [
        | inl all ↦
            rw (fits, all)
              (record {
                here =
                    ap (λ (o : Option PositionSnapshot). (position_or_new o).quantity.units)
                      (find-remove key positions alone)
                    ∙ sym (emptied _ _ all)
                    ∙ ap (λ (u : ℤ). u -ℤ delta) (sym before);
                elsewhere = λ other apart. find-remove_other key other positions apart;
              })
        | inr part ↦
            rw (fits, part)
              (assign-IsShift false key delta _ positions (ap (λ (u : ℤ). u -ℤ delta) (sym before)))
      ]
    ]

moved_positions-IsShift :
    (e : ExecutionEvent) (s : IntentState) (positions : List (String × PositionSnapshot))
    → IsDictionary positions
    → (moved_positions e s positions).0 ≡ applied
    → IsShift
        (same_effect s.intent.effect PositionEffect.opens)
        (position_key e s)
        (delta_units e s)
        positions
        (moved_positions e s positions).1
unfolding moved_positions
moved_positions-IsShift e s positions alone h =
    elim (Bool-cases (same_effect s.intent.effect PositionEffect.opens)) [
      | inl opens ↦
          rw opens (open_position-IsShift e s (position_key e s) positions (rw opens at h))
      | inr closes ↦ rw closes (
          close_position_of-IsShift s (delta_units e s) (position_key e s)
            (find (position_key e s) positions) positions alone refl (rw closes at h))
    ]

-- An event of a known order, new and valid, moves its quantity, in the units of the position, and is
-- recorded.
pub record IsMove (e : ExecutionEvent) (m after : BrokerPortfolioMirror) : Type 0 where
  pub state : IntentState
  pub known : lookup e.local_order_id m.intents ≡ some state
  pub valid : event_is_invalid e state ≡ false
  pub unseen : contains e.event_key m.event_keys ≡ false
  pub seen : contains e.event_key after.event_keys ≡ true
  pub filled : lookup e.local_order_id after.intents ≡ some (filled_state e state)
  pub shift :
      IsShift
        (same_effect state.intent.effect PositionEffect.opens)
        (position_key e state)
        (delta_units e state)
        m.positions
        after.positions
  pub same : IsSame e state (position_key e state) m.positions after.positions

settle_execution-IsMove :
    (e : ExecutionEvent) (s : IntentState)
    (t : MirrorApplyResult × List (String × PositionSnapshot)) (m : BrokerPortfolioMirror)
    → lookup e.local_order_id m.intents ≡ some s
    → event_is_invalid e s ≡ false
    → contains e.event_key m.event_keys ≡ false
    → (t.0 ≡ applied
        → IsShift
            (same_effect s.intent.effect PositionEffect.opens)
            (position_key e s)
            (delta_units e s)
            m.positions
            t.1)
    → (t.0 ≡ applied → IsSame e s (position_key e s) m.positions t.1)
    → (settle_execution e s t m).0 ≡ applied
    → IsMove e m (settle_execution e s t m).1
settle_execution-IsMove e s (MirrorApplyResult.applied, positions) m known valid unseen shift same
      h =
    record {
      state = s;
      known = known;
      valid = valid;
      unseen = unseen;
      seen = contains-head e.event_key m.event_keys;
      filled = lookup-insert_self e.local_order_id (filled_state e s) m.intents;
      shift = shift refl;
      same = same refl;
    }
settle_execution-IsMove e s (MirrorApplyResult.duplicate, positions) m known valid unseen shift same
      h =
    cc
settle_execution-IsMove e s (MirrorApplyResult.unknown_order, positions) m known valid unseen shift
      same h =
    cc
settle_execution-IsMove e s (MirrorApplyResult.invalid_event, positions) m known valid unseen shift
      same h =
    cc
settle_execution-IsMove e s (MirrorApplyResult.invalid_transition, positions) m known valid unseen
      shift same h =
    cc

execute_intent-IsMove :
    (e : ExecutionEvent) (o : Option IntentState) (m : BrokerPortfolioMirror)
    → IsMirror m
    → lookup e.local_order_id m.intents ≡ o
    → ((s : IntentState) → o ≡ some s → names_nothing s.intent.logical_position_id ≡ false)
    → contains e.event_key m.event_keys ≡ false
    → (execute_intent e o m).0 ≡ applied
    → IsMove e m (execute_intent e o m).1
execute_intent-IsMove e none m well known naming unseen h = cc
execute_intent-IsMove e (some s) m well known naming unseen h =
    elim (Bool-cases (event_is_invalid e s)) [
      | inl invalid ↦ cc (rw invalid at h)
      | inr valid ↦ rw valid (
          settle_execution-IsMove e s (moved_positions e s m.positions) m known valid unseen
            (moved_positions-IsShift e s m.positions well.held.1)
            (moved_positions-IsSame e s m.positions valid (naming s refl) well.held)
            (rw valid at h))
    ]

-- On a mirror whose quantities are in bounds, an execution that is applied, and whose intent does
-- not name its position by the empty text, is of a registered intent, valid for it and under an
-- event key that is new and is then recorded. The intent is filled as the event says; the position
-- under the key of the intent has, before and after, where it is there, the symbol and the side of
-- the intent and the scale of the event, and grows or shrinks by exactly what is newly filled;
-- every other position is as it was.
pub apply_execution-IsMove :
    (e : ExecutionEvent) (m : BrokerPortfolioMirror)
    → IsMirror m
    → ((s : IntentState)
        → lookup e.local_order_id m.intents ≡ some s
        → names_nothing s.intent.logical_position_id ≡ false)
    → (apply_execution e m).0 ≡ applied
    → IsMove e m (apply_execution e m).1
unfolding apply_execution
apply_execution-IsMove e m well naming h = elim (Bool-cases (is_empty e.event_key)) [
  | inl nameless ↦ cc (rw nameless at h)
  | inr named ↦ elim (Bool-cases (contains e.event_key m.event_keys)) [
    | inl seen ↦ cc (rw (named, seen) at h)
    | inr unseen ↦
        rw (named, unseen)
          (execute_intent-IsMove e (lookup e.local_order_id m.intents) m well refl naming unseen
            (rw (named, unseen) at h))
  ]
]
