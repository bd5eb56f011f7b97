-- ===== src/EventHeap/Order.antt =====
-- The heap order of eventheap.c, the well-formed blocks, and the events that a block holds.
use icmond.Prelude.{
  update, ℕ, zero, suc, ◌+◌, ◌/◌, ◌≤◌, ◌<◌, ◌≡◌, Bool, Option, none, some, arith, ℤ, ◌≤ℤ◌,
  if◌then◌else◌, refl,
}
use icmond.EventTypes.{Event, zero_event}
use icmond.EventHeap.{Alloc, Slots, Heap, capacity}

-- The event that a slot points to.
abbrev pub event_of : Option Event → Event
event_of none = zero_event
event_of (some e) = e

abbrev pub event_at : Slots → ℕ → Event
event_at s i = event_of (s i)

abbrev pub key : Slots → ℕ → ℤ
key s i = (event_at s i).next_trigger

abbrev pub IsLive : Slots → ℕ → Type 0
IsLive s i = s i ≡ some (event_at s i)

-- Slots 1 to n hold events.
abbrev pub AllLive : Slots → ℕ → Type 0
AllLive s n = (i : ℕ) → 1 ≤ i → i ≤ n → IsLive s i

-- No child triggers before its parent.
abbrev pub IsHeap : Slots → ℕ → Type 0
IsHeap s n = (c : ℕ) → 2 ≤ c → c ≤ n → key s (c / 2) ≤ℤ key s c

-- The edges past `i`, from its parent to its children, are in order.
abbrev pub IsBridged : Slots → ℕ → ℕ → Type 0
IsBridged s n i = (c : ℕ) → 2 ≤ c → c ≤ n → c / 2 ≡ i → 2 ≤ i → key s (i / 2) ≤ℤ key s c

-- How many of the slots 1 to n hold an event that passes a test.
unfoldable pub count : (Event → Bool) → Slots → ℕ → ℕ
count p s zero = 0
count p s (suc n) = count p s n + (if p (event_at s (suc n)) then 1 else 0)

-- What eventheap.c keeps true of an allocated block.
pub record IsValid (m : Alloc) (h : Heap) : Type 0 where
  pub room : h.size < capacity m h
  pub live : AllLive h.slots h.size
  pub order : IsHeap h.slots h.size

root_least_below :
    (k : ℕ) (s : Slots) (n i : ℕ) → IsHeap s n → i < k → 1 ≤ i → i ≤ n → key s 1 ≤ℤ key s i
root_least_below zero s n i h f p q = absurd (omega arith)
root_least_below (suc k) s n (suc zero) h f p q = omega arith
root_least_below (suc k) s n (suc (suc j)) h f p q =
    let i : ℕ = suc (suc j) in
    let below : key s 1 ≤ℤ key s (i / 2) =
      root_least_below k s n (i / 2) h (omega arith) (omega arith) (omega arith) in
    let edge : key s (i / 2) ≤ℤ key s i = h i (omega arith) q in omega arith
root_least_below (suc k) s n zero h f p q = absurd (omega arith)

-- The root of a heap triggers first.
pub root_least : (s : Slots) (n i : ℕ) → IsHeap s n → 1 ≤ i → i ≤ n → key s 1 ≤ℤ key s i
root_least s n i h p q = root_least_below (suc i) s n i h (omega arith) p q

pub count-update_past :
    (p : Event → Bool) (s : Slots) (n i : ℕ) (v : Option Event)
    → n < i
    → count p (update s i v) n ≡ count p s n
unfolding count
count-update_past p s zero i v h = refl
count-update_past p s (suc n) i v h = ground (arith, count-update_past p s n i v)

-- A write trades the old event of the slot for the new one.
pub count-update :
    (p : Event → Bool) (s : Slots) (n i : ℕ) (v : Option Event)
    → 1 ≤ i
    → i ≤ n
    → count p (update s i v) n + (if p (event_at s i) then 1 else 0)
      ≡ count p s n + (if p (event_of v) then 1 else 0)
unfolding count
count-update p s zero i v h k = absurd (omega arith)
count-update p s (suc n) i v h k =
    ground (arith, count-update p s n i v, count-update_past p s n i v)

abbrev pub swapped : Slots → ℕ → ℕ → Slots
swapped s i j = update (update s i (s j)) j (s i)

pub count-swapped :
    (p : Event → Bool) (s : Slots) (n i j : ℕ)
    → 1 ≤ i
    → i ≤ n
    → 1 ≤ j
    → j ≤ n
    → count p (swapped s i j) n ≡ count p s n
count-swapped p s n i j hi hi' hj hj' =
    ground (arith, count-update p s n i (s j), count-update p (update s i (s j)) n j (s i))

-- Two blocks hold the same events, as often.
abbrev pub SameEvents : Slots → Slots → ℕ → Type 0
SameEvents s t n = (p : Event → Bool) → count p s n ≡ count p t n
