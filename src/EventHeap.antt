-- ===== src/EventHeap.antt =====
-- eventheap.c: a minimum heap of event pointers in one allocated block. Slot 0 of the block holds
-- the size, which is a field of its own here; `none` in a slot is NULL or memory not yet written.
-- A read or write past the block, or through such a slot, is a fault. Allocation never fails.
pub mod Order
pub mod Access
pub mod Up
pub mod Down
pub mod Insert
pub mod Fetch
pub mod Drain
pub mod Queue
pub mod Refines
pub mod Level
use icmond.Prelude.{
  ℕ, zero, suc, ◌+◌, ◌*◌, ◌/◌, ◌-◌, ◌≤◌, ◌<◌, Bool, false, not, Option, none, some, ltb, leb, ◌==◌,
  if◌then◌else◌, update, ℤ, ltb_ℤ, eqb_ℤ, Run, ok, fault, out_of_fuel, ◌>>=◌, or_fault, List, [],
  ◌∷◌,
}
use icmond.EventTypes.{Event}

-- The C allocator: malloc_usable_size() of a block that was asked for with so many bytes. Blocks are
-- at least as large as asked for, and a pointer takes four or eight bytes.
pub record Alloc : Type 0 where
  pub sizeof_ptr : ℕ
  pub usable : ℕ → ℕ
  pub usable_ge : (n : ℕ) → n ≤ usable n
  pub ptr_pos : 0 < sizeof_ptr
  pub ptr_le : sizeof_ptr ≤ 8

abbrev pub Slots : Type 0
Slots = ℕ → Option Event

-- *g_heap, and malloc_usable_size(g_heap)
pub record Heap : Type 0 where
  pub usable_size : ℕ
  pub size : ℕ
  pub slots : Slots

abbrev pub size_increment : ℕ
size_increment = 256

-- eventheap_size()
unfoldable pub heap_size : Option Heap → ℕ
heap_size none = 0
heap_size (some h) = h.size

module _ (m : Alloc) where
  -- How many pointers the block has room for.
  abbrev pub capacity : Heap → ℕ
  capacity h = h.usable_size / m.sizeof_ptr

  -- g_heap[i], read
  unfoldable pub load : Heap → ℕ → Run (Option Event)
  load h i = if ltb i (capacity h) then ok (h.slots i) else fault

  -- g_heap[i] = v
  unfoldable pub store : Heap → ℕ → Option Event → Run Heap
  store h i v = if ltb i (capacity h) then ok (record h { slots = update h.slots i v }) else fault

  -- VAL(i)
  unfoldable pub val : Heap → ℕ → Run ℤ
  unfolding load
  val h i = do p ← load h i; e ← or_fault p; ok e.next_trigger

  unfoldable pub swap : Heap → ℕ → ℕ → Run Heap
  unfolding load store
  swap h index1 index2 = do
    temp ← load h index1
    second ← load h index2
    h' ← store h index1 second
    store h' index2 temp

  -- `index <= HEAPSIZE && VAL(index) < VAL(other)`
  unfoldable pub below : Heap → ℕ → ℕ → Run Bool
  unfolding val
  below h index other =
      let test : Run Bool = (do a ← val h index; b ← val h other; ok (ltb_ℤ a b)) in
      if leb index h.size then test else ok false

  -- The child of the root that heapify() calls `smallest`, or the root.
  unfoldable pub smallest_of : Heap → ℕ → Run ℕ
  unfolding below
  smallest_of h rootindex = do
    left ← below h (2 * rootindex) rootindex
    let smallest = if left then 2 * rootindex else rootindex
    right ← below h (2 * rootindex + 1) smallest
    ok (if right then 2 * rootindex + 1 else smallest)

  -- heapify(rootindex), with fuel for its recursion
  unfoldable pub heapify : ℕ → Heap → ℕ → Run Heap
  unfolding smallest_of val swap
  heapify zero h rootindex = out_of_fuel
  heapify (suc fuel) h rootindex = do
    smallest ← smallest_of h rootindex
    a ← val h smallest
    b ← val h rootindex
    let descend = swap h smallest rootindex >>= λ h'. heapify fuel h' smallest
    if not (eqb_ℤ a b) then descend else ok h

  -- the `while (index > 1)` of eventheap_insert(), with fuel
  unfoldable pub bubble_up : ℕ → Heap → ℕ → Run Heap
  unfolding val swap
  bubble_up zero h index = out_of_fuel
  bubble_up (suc fuel) h index =
      let rise = swap h index (index / 2) >>= λ h'. bubble_up fuel h' (index / 2) in
      let round : Run Heap = do
        a ← val h index
        b ← val h (index / 2)
        if ltb_ℤ a b then rise else ok h
      in if ltb 1 index then round else ok h

  -- calloc(SIZE_INCREMENT, sizeof(event_t *))
  unfoldable pub allocate : Heap
  allocate = record {
    usable_size = m.usable (size_increment * m.sizeof_ptr);
    size = 0;
    slots = λ _. none;
  }

  -- realloc(), if the block has no room for one more pointer
  unfoldable pub expand : Heap → Heap
  expand h =
      if ltb (capacity h) (h.size + 2)
      then record h { usable_size = m.usable (h.usable_size + size_increment) }
      else h

  -- eventheap_insert(e), on g_heap, where `none` is NULL
  unfoldable pub insert : Option Heap → Event → Run Heap
  unfolding allocate expand store
  insert g e =
      let h0 : Heap = elim g [ none ↦ allocate | some h ↦ h ] in
      let h1 = expand h0 in
      let h2 = record h1 { size = h1.size + 1 } in
      store h2 h2.size (some e) >>= λ h3. bubble_up (h3.size + 1) h3 h3.size

  -- eventheap_peek()
  unfoldable pub peek : Option Heap → Run (Option Event)
  unfolding load
  peek none = ok none
  peek (some h) = if ltb h.size 1 then ok none else load h 1

  -- the part of eventheap_fetch() behind its guard
  unfoldable pub fetch_root : Heap → Run (Option Event × Heap)
  unfolding load store
  fetch_root h = do
    e ← load h 1
    last ← load h h.size
    h' ← store h 1 last
    let shorter = record h' { size = h'.size - 1 }
    h'' ← heapify (shorter.size + 1) shorter 1
    ok (e, h'')

  -- eventheap_fetch(), with g_heap afterwards
  unfoldable pub fetch : Option Heap → Run (Option Event × Option Heap)
  unfolding fetch_root
  fetch none = ok (none, none)
  fetch (some h) =
      let take : Run (Option Event × Option Heap) = (do (e, h') ← fetch_root h; ok (e, some h')) in
      if ltb h.size 1 then ok (none, some h) else take

  -- eventheap_fetchtriggered(now)
  unfoldable pub fetch_triggered : Option Heap → ℤ → Run (Option Event × Option Heap)
  unfolding val
  fetch_triggered none now = ok (none, none)
  fetch_triggered (some h) now =
      let test : Run (Option Event × Option Heap) = do
        t ← val h 1
        if ltb_ℤ now t then ok (none, some h) else fetch (some h)
      in if ltb h.size 1 then ok (none, some h) else test

  -- `while ((event = eventheap_fetch()))`, the loop of eventheap_destroy() and bsprint_eventheap():
  -- the events in the order in which they come, and g_heap afterwards
  unfoldable pub fetch_all : ℕ → Option Heap → Run (List Event × Option Heap)
  unfolding fetch
  fetch_all zero g = out_of_fuel
  fetch_all (suc fuel) g = fetch g >>= λ (e, g'). elim e [
    | none ↦ ok ([], g')
    | some event ↦ fetch_all fuel g' >>= λ (events, g''). ok (event ∷ events, g'')
  ]

  -- eventheap_destroy(): the events that it frees, and g_heap afterwards
  unfoldable pub destroy : Option Heap → Run (List Event × Option Heap)
  destroy none = ok ([], none)
  destroy (some h) = fetch_all (h.size + 1) (some h) >>= λ (events, _). ok (events, none)

  -- bsprint_eventheap(): the events that it prints, in their order, and g_heap, where memcpy() puts the
  -- saved block back
  unfoldable pub bsprint_eventheap : Option Heap → Run (List Event × Option Heap)
  bsprint_eventheap none = ok ([], none)
  bsprint_eventheap (some h) =
      fetch_all (h.size + 1) (some h) >>= λ (events, _). ok (events, some h)

-- heaplevel(index), with fuel for `while (index >>= 1)`
unfoldable pub heaplevel_loop : ℕ → ℕ → ℕ → Run ℕ
heaplevel_loop zero index targetlevel = out_of_fuel
heaplevel_loop (suc fuel) index targetlevel =
    let half = index / 2 in
    let again = heaplevel_loop fuel half (targetlevel + 1) in
    if half == 0 then ok targetlevel else again

unfoldable pub heaplevel : ℕ → Run ℕ
unfolding heaplevel_loop
heaplevel index = heaplevel_loop (index + 1) index 0
