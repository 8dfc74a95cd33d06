-- ===== src/Ring/Buffer.antt =====
-- The operations of engine/include/LockFreeRingBuffer.hpp as the turns of its two threads. A load or a store
-- is one turn, and the turns of the threads interleave in any order; what a release store publishes is
-- there for the acquire load that reads it.
use mynyra.Prelude.{ℕ, zero, suc, ◌+◌, ◌-◌, ◌%◌, List, [], ◌∷◌, ◌++◌, if◌then◌else◌, ◌==◌, leb}

pub record Ring {ℓ} (T : Type ℓ) : Type ℓ where
  pub data_at : ℕ → T
  pub head : ℕ
  pub tail : ℕ

-- Where the producer stands in `push`.
pub data Producer {ℓ} (T : Type ℓ) : Type ℓ where
  push_idle : Producer T
  has_head : T → ℕ → Producer T
  has_room : T → ℕ → ℕ → Producer T
  has_stored : T → ℕ → ℕ → Producer T

-- Where the consumer stands in `pop`.
pub data Consumer {ℓ} (T : Type ℓ) : Type ℓ where
  pop_idle : Consumer T
  has_tail : ℕ → Consumer T
  has_item : ℕ → Consumer T
  has_value : T → ℕ → Consumer T

-- What a call returns: `pushed` and `popped` stand for true.
pub data Event {ℓ} (T : Type ℓ) : Type ℓ where
  pushed : T → Event T
  found_full : T → Event T
  popped : T → Event T
  found_empty : Event T

pub record System {ℓ} (T : Type ℓ) : Type ℓ where
  pub ring : Ring T
  pub producer : Producer T
  pub consumer : Consumer T

-- The producer starts a push of the value, unless one is under way.
pub data Turn {ℓ} (T : Type ℓ) : Type ℓ where
  produces : T → Turn T
  consumes : Turn T

unfoldable pub increment : ℕ → ℕ → ℕ
increment capacity index = (index + 1) % capacity

unfoldable pub size {ℓ} : {T : Type ℓ} → ℕ → Ring T → ℕ
size capacity r = if leb r.tail r.head then r.head - r.tail else capacity - (r.tail - r.head)

unfoldable pub write {ℓ} : {T : Type ℓ} → (ℕ → T) → ℕ → T → ℕ → T
write data_at index value other = if other == index then value else data_at other

module _ {ℓ} {T : Type ℓ} (capacity : ℕ) where
  unfoldable pub produce : T → Ring T → Producer T → List (Event T) × Ring T × Producer T
  produce value r Producer.push_idle = ([], r, Producer.has_head value r.head)
  produce value r (Producer.has_head v head) =
      if increment capacity head == r.tail
      then (Event.found_full v ∷ [], r, Producer.push_idle)
      else ([], r, Producer.has_room v head (increment capacity head))
  produce value r (Producer.has_room v head next) =
      ([], record r { data_at = write r.data_at head v }, Producer.has_stored v head next)
  produce value r (Producer.has_stored v head next) =
      (Event.pushed v ∷ [], record r { head = next }, Producer.push_idle)

  unfoldable pub consume : Ring T → Consumer T → List (Event T) × Ring T × Consumer T
  consume r Consumer.pop_idle = ([], r, Consumer.has_tail r.tail)
  consume r (Consumer.has_tail tail) =
      if tail == r.head
      then (Event.found_empty ∷ [], r, Consumer.pop_idle)
      else ([], r, Consumer.has_item tail)
  consume r (Consumer.has_item tail) = ([], r, Consumer.has_value (r.data_at tail) tail)
  consume r (Consumer.has_value v tail) =
      (Event.popped v ∷ [], record r { tail = increment capacity tail }, Consumer.pop_idle)

  unfoldable pub take_turn : Turn T → System T → List (Event T) × System T
  take_turn (Turn.produces value) s =
      let (events, ring, producer) = produce value s.ring s.producer in
      (events, record s { ring = ring; producer = producer })
  take_turn Turn.consumes s =
      let (events, ring, consumer) = consume s.ring s.consumer in
      (events, record s { ring = ring; consumer = consumer })

  unfoldable pub run_turns : List (Turn T) → System T → List (Event T) × System T
  run_turns [] s = ([], s)
  run_turns (turn ∷ turns) s =
      let (events, next) = take_turn turn s in
      let (more, final) = run_turns turns next in (events ++ more, final)

  -- What lies from a position on.
  unfoldable pub items : (ℕ → T) → ℕ → ℕ → List T
  items data_at zero index = []
  items data_at (suc n) index = data_at index ∷ items data_at n (increment capacity index)

  unfoldable pub contents : Ring T → List T
  contents r = items r.data_at (size capacity r) r.tail

abbrev pub new_ring {ℓ} : {T : Type ℓ} → T → System T
new_ring value = record {
  ring = record { data_at = λ _. value; head = 0; tail = 0 };
  producer = Producer.push_idle;
  consumer = Consumer.pop_idle;
}
