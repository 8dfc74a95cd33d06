-- ===== src/Ring/Invariant.antt =====
-- The bounded queue that engine/include/LockFreeRingBuffer.hpp serves, and how the buffer holds it.
use mynyra.Prelude.{
  ℕ, suc, ◌+◌, ◌<◌, ◌≡◌, ◌≢◌, refl, true, false, List, [], ◌∷◌, ◌++◌, arith, ◌==◌, length,
}
use mynyra.Ring.Buffer.{Ring, Producer, Consumer, Event, increment, items}
use mynyra.Ring.Positions.{advance}

pub equal : (m n : ℕ) → (m == n) ≡ true → m ≡ n
equal m n h = ground arith

pub are_apart : (m n : ℕ) → (m == n) ≡ false → m ≢ n
are_apart m n h = ground arith

module _ {T : Type 0} (capacity : ℕ) where
  -- What a call does to a queue that holds fewer than the capacity.
  pub data Answer : List T → Event T → List T → Type 0 where
    accepts :
        {q : List T} → (v : T) → length q + 1 < capacity → Answer q (Event.pushed v) (q ++ v ∷ [])
    refuses : {q : List T} → (v : T) → length q + 1 ≡ capacity → Answer q (Event.found_full v) q
    removes : {q : List T} → (v : T) → Answer (v ∷ q) (Event.popped v) q
    has_none : Answer [] Event.found_empty []

  pub data Serves : List T → List (Event T) → List T → Type 0 where
    rests : {q : List T} → Serves q [] q
    answers :
        {q r t : List T} {e : Event T} {events : List (Event T)}
        → Answer q e r
        → Serves r events t
        → Serves q (e ∷ events) t

  pub Serves-append :
      {q r t : List T} {before after : List (Event T)}
      → Serves q before r
      → Serves r after t
      → Serves q (before ++ after) t
  Serves-append rests h = h
  Serves-append (answers a rest) h = answers a (Serves-append rest h)

  abbrev pub Producing : Ring T → List T → Producer T → Type 0
  Producing r q Producer.push_idle = Unit {0}
  Producing r q (Producer.has_head v head) = head ≡ r.head
  Producing r q (Producer.has_room v head next) =
      (head ≡ r.head) × (next ≡ increment capacity head) × (length q + 1 < capacity)
  Producing r q (Producer.has_stored v head next) =
      (head ≡ r.head)
      × (next ≡ increment capacity head)
      × (length q + 1 < capacity)
      × (r.data_at head ≡ v)

  abbrev pub Consuming : Ring T → List T → Consumer T → Type 0
  Consuming r q Consumer.pop_idle = Unit {0}
  Consuming r q (Consumer.has_tail tail) = tail ≡ r.tail
  Consuming r q (Consumer.has_item tail) = (tail ≡ r.tail) × (0 < length q)
  Consuming r q (Consumer.has_value v tail) =
      (tail ≡ r.tail) × (0 < length q) × (r.data_at tail ≡ v)

  -- The ring holds the queue, and what the threads have read still stands.
  pub record IsRing (r : Ring T) (p : Producer T) (c : Consumer T) (q : List T) : Type 0 where
    pub tail_in : r.tail < capacity
    pub fits : length q < capacity
    pub ahead : r.head ≡ advance capacity (length q) r.tail
    pub stored : items capacity r.data_at (length q) r.tail ≡ q
    pub producing : Producing r q p
    pub consuming : Consuming r q c

  pub next_producer :
      {r : Ring T} {p next : Producer T} {c : Consumer T} {q : List T}
      → IsRing r p c q
      → Producing r q next
      → IsRing r next c q
  next_producer h at = record {
    tail_in = h.tail_in;
    fits = h.fits;
    ahead = h.ahead;
    stored = h.stored;
    producing = at;
    consuming = h.consuming;
  }

  pub next_consumer :
      {r : Ring T} {p : Producer T} {c next : Consumer T} {q : List T}
      → IsRing r p c q
      → Consuming r q next
      → IsRing r p next q
  next_consumer h at = record {
    tail_in = h.tail_in;
    fits = h.fits;
    ahead = h.ahead;
    stored = h.stored;
    producing = h.producing;
    consuming = at;
  }

  pub some_in : (q : List T) → 0 < length q → (m : ℕ) × (length q ≡ suc m)
  some_in [] h = (0, omega arith)
  some_in (x ∷ q) h = (length q, refl)
