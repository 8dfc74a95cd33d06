-- ===== src/Adapter/Notices.antt =====
-- What `submit` of engine/src/DeterministicBrokerAdapter.cpp answers.
use mathlib.Core.Option.{some-injective}
use mynyra.Prelude.{
  ℕ, ◌≡◌, ◌∙◌, refl, sym, ap, Bool, true, false, not, ◌&&◌, ◌||◌, Option, none, some, List, [], ◌∷◌,
  ◌++◌, arith, ltb, if◌then◌else◌, Bool-cases, inl, inr, subst,
}
use mynyra.Prelude.Int.{ℤ, pos, negsuc, ◌+ℤ◌, ◌-ℤ◌, ◌≤ℤ◌, ltb_ℤ}
use mynyra.Contracts.{
  Decimal64, is_positive, NormalizedOrder, max_scale, AdapterHealthEvent, AdapterHealthState,
}
use mynyra.Financial.Units.{Rounding, Price, Money}
use mynyra.Financial.Budget.{bind_inv, past_guard}
use mynyra.Doubles.{Doubles, to_double}
use mynyra.Doubles.Conversions.{from_double, raise_factor, round_extended, is_outside}
use mynyra.Adapter.State.{
  DeterministicBrokerAdapter, Notice, order_acknowledged, order_executed, health_changed, bump,
}
use mynyra.Adapter.Submission.{
  strikes, split_at, split_fill, settle_fill, fill_order, answer, submit, fault_disconnect,
  fault_latency,
}

-- A refusal, or an acceptance with one fill of the same external id, whose filled and remaining
-- quantities are a split of the order's.
abbrev pub IsAnswer : NormalizedOrder → List Notice → Type 0
IsAnswer order (order_acknowledged k ∷ []) =
    (k.is_accepted ≡ false) × (k.local_order_id ≡ order.request.local_order_id)
IsAnswer order (order_acknowledged k ∷ order_executed e ∷ []) =
    (k.is_accepted ≡ true)
    × (e.external_order_id ≡ k.external_order_id)
    × (e.local_order_id ≡ k.local_order_id)
    × (k.local_order_id ≡ order.request.local_order_id)
    × (e.cumulative_filled_quantity.units +ℤ e.remaining_quantity.units
        ≡ order.normalized_quantity.units)
    × (pos 0 ≤ℤ e.remaining_quantity.units)
    × (is_positive e.cumulative_filled_quantity ≡ true)
    × (e.cumulative_filled_quantity.scale ≡ order.normalized_quantity.scale)
    × (e.remaining_quantity.scale ≡ order.normalized_quantity.scale)
IsAnswer order _ = false ≡ true

abbrev pub IsSplit : Decimal64 → Decimal64 × Decimal64 → Type 0
IsSplit whole (filled, remaining) =
    (filled.units +ℤ remaining.units ≡ whole.units)
    × (pos 0 ≤ℤ remaining.units)
    × (is_positive filled ≡ true)
    × (remaining.scale ≡ whole.scale)

-- A refusal of the order alone.
abbrev pub IsRefusal : NormalizedOrder → List Notice → Type 0
IsRefusal order (order_acknowledged k ∷ []) =
    (k.is_accepted ≡ false) × (k.local_order_id ≡ order.request.local_order_id)
IsRefusal order _ = false ≡ true

add_zero : (a : ℤ) → a +ℤ pos 0 ≡ a
unfolding ◌+ℤ◌
add_zero (pos n) = ground arith
add_zero (negsuc n) = ground arith

add_rest : (a b : ℤ) → a +ℤ (b -ℤ a) ≡ b
unfolding ◌+ℤ◌ ◌-ℤ◌
add_rest (pos m) (pos n) = ground arith
add_rest (pos m) (negsuc n) = ground arith
add_rest (negsuc m) (pos n) = ground arith
add_rest (negsuc m) (negsuc n) = ground arith

rest_positive : (a b : ℤ) → ltb_ℤ a b ≡ true → pos 0 ≤ℤ (b -ℤ a)
unfolding ◌-ℤ◌
rest_positive (pos m) (pos n) h = ground arith
rest_positive (pos m) (negsuc n) h = ground arith
rest_positive (negsuc m) (pos n) h = ground arith
rest_positive (negsuc m) (negsuc n) h = ground arith

split_at-IsSplit :
    (whole : Decimal64) (partial : Option Decimal64)
    → is_positive whole ≡ true
    → IsSplit whole (split_at whole partial)
split_at-IsSplit whole none h = (add_zero whole.units, omega arith, h, refl)
split_at-IsSplit whole (some partial) h =
    elim (Bool-cases (is_positive partial && ltb_ℤ partial.units whole.units)) [
      | inl splits ↦ subst (IsSplit whole) (sym (chosen splits)) (
        add_rest partial.units whole.units,
        rest_positive partial.units whole.units (ground arith),
        ground arith,
        refl,
      )
      | inr whole_fill ↦
          subst (IsSplit whole) (sym (chosen whole_fill))
            (add_zero whole.units, omega arith, h, refl)
    ]
  where
    chosen :
        {b : Bool}
        → (is_positive partial && ltb_ℤ partial.units whole.units) ≡ b
        → split_at whole (some partial) ≡ (
            if b
            then (partial, record { units = whole.units -ℤ partial.units; scale = whole.scale })
            else (whole, record { units = pos 0; scale = whole.scale }))
    chosen e =
        ap
          (λ (b : Bool).
            if b
            then (partial, record { units = whole.units -ℤ partial.units; scale = whole.scale })
            else (whole, record { units = pos 0; scale = whole.scale }))
          e

from_double_scale :
    (F : Doubles) (x : F.Double) (n : ℕ) (r : Rounding) {d : Decimal64}
    → from_double F x n r ≡ some d
    → d.scale ≡ n
unfolding from_double
from_double_scale F x n r {d} e =
    let (g1, k1) = past_guard (not (F.is_finite x) || ltb max_scale n) e in
    let (factor, raised, k2) = bind_inv (raise_factor n 1) _ d k1 in
    let scaled = F.extended_mul (F.extend x) (F.extended_of_int (pos factor)) in
    let (g2, k3) = past_guard (is_outside F scaled) k2 in
    let (rounded, made, k4) = bind_inv (round_extended F r scaled) _ d k3 in
    let (g3, k5) = past_guard (is_outside F rounded) k4 in
    ap (λ (t : Decimal64). t.scale) (sym (some-injective _ _ k5))

split_at_scale :
    (whole : Decimal64) (o : Option Decimal64)
    → ((d : Decimal64) → o ≡ some d → d.scale ≡ whole.scale)
    → (split_at whole o).0.scale ≡ whole.scale
split_at_scale whole none h = refl
split_at_scale whole (some partial) h = ground (arith, h partial refl)

module _ (F : Doubles) where
  pub split_fill-IsSplit :
      (whole : Decimal64) (ratio : Option F.Double)
      → is_positive whole ≡ true
      → IsSplit whole (split_fill F whole ratio)
  unfolding split_fill
  split_fill-IsSplit whole none h = split_at-IsSplit whole none h
  split_fill-IsSplit whole (some r) h =
      split_at-IsSplit whole
        (from_double F (F.mul (to_double F whole) r) whole.scale Rounding.toward_zero) h

  pub split_fill_scale :
      (whole : Decimal64) (ratio : Option F.Double)
      → (split_fill F whole ratio).0.scale ≡ whole.scale
  unfolding split_fill
  split_fill_scale whole none = refl
  split_fill_scale whole (some r) =
      split_at_scale whole
        (from_double F (F.mul (to_double F whole) r) whole.scale Rounding.toward_zero)
        (λ (d : Decimal64)
            (e : from_double F (F.mul (to_double F whole) r) whole.scale Rounding.toward_zero
              ≡ some d).
          from_double_scale F (F.mul (to_double F whole) r) whole.scale Rounding.toward_zero e)

  settle_fill-IsAnswer :
      (order : NormalizedOrder) (split : Decimal64 × Decimal64) (o : Option (Price × Money))
      (a : DeterministicBrokerAdapter F)
      → IsSplit order.normalized_quantity split
      → split.0.scale ≡ order.normalized_quantity.scale
      → IsAnswer order (settle_fill F order split o a).0
  settle_fill-IsAnswer order split none a h part_scale = (refl, refl)
  settle_fill-IsAnswer order (filled, remaining) (some (price, charge)) a (sum, low, high, scale)
        part_scale =
      (refl, refl, refl, refl, sum, low, high, part_scale, scale)

  -- Whether an injected error or a drop is due when an adapter has counted a submission.
  abbrev pub is_due : DeterministicBrokerAdapter F → Bool
  is_due a = a.inject_error || strikes a.fault_config a.fault_config.drop_every_n a.submit_count

  answer-IsAnswer :
      (order : NormalizedOrder) (a : DeterministicBrokerAdapter F)
      → is_positive order.normalized_quantity ≡ true
      → is_due a ≡ false
      → IsAnswer order (answer F order a).0
  unfolding answer fill_order
  answer-IsAnswer order a h filled = rw filled (
      settle_fill-IsAnswer order (split_fill F order.normalized_quantity a.partial_fill_ratio) _ _
        (split_fill-IsSplit order.normalized_quantity a.partial_fill_ratio h)
        (split_fill_scale order.normalized_quantity a.partial_fill_ratio))

  answer-IsRefusal :
      (order : NormalizedOrder) (a : DeterministicBrokerAdapter F)
      → is_due a ≡ true
      → IsRefusal order (answer F order a).0
  unfolding answer
  answer-IsRefusal order a refused = rw refused (refl, refl)

  -- A fault that reconnects or slows the adapter leaves what is due.
  is_due-faults :
      (order : NormalizedOrder) (a : DeterministicBrokerAdapter F)
      → is_due (fault_latency F (fault_disconnect F order a).1) ≡ is_due a
  unfolding fault_latency fault_disconnect
  is_due-faults order a = ground arith

  -- Before an answer there is nothing, or the notice that the adapter is connected again.
  pub data AreHealth : List Notice → Type 0 where
    quiet : AreHealth []
    reconnected :
        (h : AdapterHealthEvent)
        → h.state ≡ AdapterHealthState.connected
        → AreHealth (health_changed h ∷ [])

  -- A submission is refused without a notice while the adapter is not connected, and taken and answered
  -- while it is.
  pub data IsSubmission (order : NormalizedOrder) (a : DeterministicBrokerAdapter F)
      : Bool × List Notice × DeterministicBrokerAdapter F → Type 0 where
    offline : a.connected ≡ false → IsSubmission order a (false, [], a)
    fails :
        (before replied : List Notice) {next : DeterministicBrokerAdapter F}
        → a.connected ≡ true
        → is_due (record a { submit_count = bump a.submit_count }) ≡ true
        → AreHealth before
        → IsRefusal order replied
        → IsSubmission order a (true, before ++ replied, next)
    taken :
        (before replied : List Notice) {next : DeterministicBrokerAdapter F}
        → a.connected ≡ true
        → is_due (record a { submit_count = bump a.submit_count }) ≡ false
        → AreHealth before
        → IsAnswer order replied
        → IsSubmission order a (true, before ++ replied, next)

  fault_disconnect-AreHealth :
      (order : NormalizedOrder) (a : DeterministicBrokerAdapter F)
      → AreHealth (fault_disconnect F order a).0
  unfolding fault_disconnect
  fault_disconnect-AreHealth order a =
      elim (Bool-cases (strikes a.fault_config a.fault_config.disconnect_every_n a.submit_count)) [
        | inl struck ↦ rw struck (reconnected _ refl)
        | inr calm ↦ rw calm quiet
      ]

  -- A submission of a positive quantity to a disconnected adapter is not taken, gives no notice
  -- and changes nothing; to a connected one it is taken and, after at most one notice that a fault
  -- has reconnected the adapter, answered: by a refusal of the order alone when an error was
  -- injected or its fault for dropping strikes, and otherwise by a refusal alone or by an
  -- acceptance and one fill with the same ids as the order and each other, where the filled
  -- quantity is positive, the remaining one is not negative, both have the scale of the order, and
  -- their units add up to those of the order.
  pub submit-IsSubmission :
      (order : NormalizedOrder) (a : DeterministicBrokerAdapter F)
      → is_positive order.normalized_quantity ≡ true
      → IsSubmission order a (submit F order a)
  unfolding submit
  submit-IsSubmission order a h = by_connection a.connected refl
    where
      by_connection :
          (up : Bool)
          → a.connected ≡ up
          → IsSubmission order a (
              if not up then (false, [], a) else (
                true,
                (fault_disconnect F order (record a { submit_count = bump a.submit_count })).0
                    ++ (answer F order (
                        fault_latency F
                          (fault_disconnect F order
                            (record a { submit_count = bump a.submit_count })).1)).0,
                (answer F order (
                    fault_latency F
                      (fault_disconnect F order
                        (record a { submit_count = bump a.submit_count })).1)).1,
              ))
      by_connection false e = offline e
      by_connection true e =
          let counted = record a { submit_count = bump a.submit_count } in
          let ready = fault_latency F (fault_disconnect F order counted).1 in
          let same = is_due-faults order counted in
          elim (Bool-cases (is_due counted)) [
            | inl due ↦
                fails (fault_disconnect F order counted).0 (answer F order ready).0 e due
                  (fault_disconnect-AreHealth order counted)
                  (answer-IsRefusal order ready (same ∙ due))
            | inr clear ↦
                taken (fault_disconnect F order counted).0 (answer F order ready).0 e clear
                  (fault_disconnect-AreHealth order counted)
                  (answer-IsAnswer order ready h (same ∙ clear))
          ]
