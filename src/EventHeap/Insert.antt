-- ===== src/EventHeap/Insert.antt =====
-- eventheap_insert(), on a block or on NULL.
use native.Mathlib.Numerals.{add-one}
use icmond.Prelude.{
  update, ℕ, zero, suc, ◌+◌, ◌*◌, ◌/◌, ◌≤◌, ◌<◌, ◌≡◌, refl, Bool, Option, none, some, arith,
  if◌then◌else◌, ap, ◌∙◌, Returns, Returns-map, ◌>>=◌,
}
use icmond.EventTypes.{Event}
use icmond.EventHeap.{
  Alloc, Slots, Heap, capacity, allocate, expand, heap_size, store, bubble_up, insert,
}
use icmond.EventHeap.Order.{count, count-update_past, IsValid, AllLive, IsHeap}
use icmond.EventHeap.Access.{store-ok}
use icmond.EventHeap.Up.{UpInv, bubble_up_restores}

-- What eventheap.c keeps true of g_heap, which is NULL at first.
abbrev pub WellFormed : Alloc → Option Heap → Type 0
WellFormed m none = Unit
WellFormed m (some h) = IsValid m h

-- How many events of g_heap pass a test.
abbrev pub count_in : (Event → Bool) → Option Heap → ℕ
count_in p none = 0
count_in p (some h) = count p h.slots h.size

abbrev pub one_if : Bool → ℕ
one_if b = if b then 1 else 0

-- `h` is a valid block of the events of `g` and `e`.
pub record Inserted (m : Alloc) (g : Option Heap) (e : Event) (h : Heap) : Type 0 where
  pub valid : IsValid m h
  pub size_is : h.size ≡ heap_size g + 1
  pub events : (p : Event → Bool) → count p h.slots h.size ≡ count_in p g + one_if (p e)

-- 256 bytes hold at least one pointer more.
div_room : (w u x : ℕ) → 0 < w → w ≤ 8 → u + 256 ≤ x → u / w + 1 ≤ x / w
div_room zero u x h k r = absurd (omega arith)
div_room (suc zero) u x h k r = omega arith
div_room (suc (suc zero)) u x h k r = omega arith
div_room (suc (suc (suc zero))) u x h k r = omega arith
div_room (suc (suc (suc (suc zero)))) u x h k r = omega arith
div_room (suc (suc (suc (suc (suc zero))))) u x h k r = omega arith
div_room (suc (suc (suc (suc (suc (suc zero)))))) u x h k r = omega arith
div_room (suc (suc (suc (suc (suc (suc (suc zero))))))) u x h k r = omega arith
div_room (suc (suc (suc (suc (suc (suc (suc (suc zero)))))))) u x h k r = omega arith
div_room (suc (suc (suc (suc (suc (suc (suc (suc (suc w))))))))) u x h k r = absurd (omega arith)

count-update_new :
    (p : Event → Bool) (s : Slots) (n : ℕ) (e : Event)
    → count p (update s (n + 1) (some e)) (n + 1) ≡ count p s n + one_if (p e)
count-update_new p s n e =
    rw add-one (unfold count in ground (arith, count-update_past p s n (suc n) (some e)))

module _ (m : Alloc) where
  allocate_room : 0 < capacity m (allocate m)
  unfolding allocate
  allocate_room =
      let enough = div_room m.sizeof_ptr 0 (m.usable (256 * m.sizeof_ptr)) m.ptr_pos m.ptr_le in
      omega (arith, enough (omega (arith, m.usable_ge (256 * m.sizeof_ptr), m.ptr_pos)))

  pub allocate-IsValid : IsValid m (allocate m)
  unfolding allocate
  allocate-IsValid = record {
    room = unfold allocate in allocate_room;
    live = λ i p q. absurd (omega arith);
    order = λ c p q. absurd (omega arith);
  }

  -- expand() leaves room for one more event, and changes nothing else.
  expand_room : (h : Heap) → h.size < capacity m h → h.size + 1 < capacity m (expand m h)
  unfolding expand
  expand_room h room = ground (
    arith,
    div_room m.sizeof_ptr h.usable_size (m.usable (h.usable_size + 256)) m.ptr_pos m.ptr_le,
    m.usable_ge (h.usable_size + 256),
  )

  expand_keeps : (h : Heap) → ((expand m h).size ≡ h.size) × ((expand m h).slots ≡ h.slots)
  unfolding expand
  expand_keeps h = ground arith

  -- Inserting one event where there is room for it.
  inserted :
      (h : Heap) (e : Event)
      → h.size + 1 < capacity m h
      → AllLive h.slots h.size
      → IsHeap h.slots h.size
      → UpInv m
          (record h { size = h.size + 1; slots = update h.slots (h.size + 1) (some e) })
          (h.size + 1)
  inserted h e room live order = record {
    above = omega arith;
    inside = omega arith;
    room = room;
    live = λ i p q. ground (arith, live i p);
    edges = λ c p q r. ground (arith, order c p);
    bridged = λ c p q r s. absurd (omega arith);
  }

  insert_into :
      (g : Option Heap) (h : Heap) (e : Event)
      → IsValid m h
      → h.size ≡ heap_size g
      → ((p : Event → Bool) → count p h.slots h.size ≡ count_in p g)
      → Returns (Inserted m g e) (
          store m
            (record (expand m h) { size = (expand m h).size + 1 })
            ((expand m h).size + 1)
            (some e)
          >>= λ h3. bubble_up m (h3.size + 1) h3 h3.size)
  insert_into g h e v size_g count_g =
      let (size_e, slots_e) = expand_keeps h in
      let h1 = expand m h in
      let room : h1.size + 1 < capacity m h1 = omega (arith, expand_room h v.room) in
      let start = inserted h1 e room (rw (size_e, slots_e) v.live) (rw (size_e, slots_e) v.order) in
      let n = h1.size + 1 in
      rw (store-ok m (record h1 { size = n }) n (some e) room) (
        Returns-map (bubble_up_restores (n + 1) m _ n (omega arith) start) (λ b s. record {
          valid = record {
            room = rw (s.size_kept, s.block_kept) room;
            live = s.live;
            order = s.order;
          };
          size_is = omega (arith, s.size_kept);
          events = λ p.
              rw s.size_kept (s.same p)
              ∙ count-update_new p h1.slots h1.size e
              ∙ rw (slots_e, size_e) (ap (λ k. k + one_if (p e)) (count_g p));
        }))

  -- eventheap_insert() on a well-formed heap, or on NULL, always returns: it makes room, faults on no
  -- access, and leaves a well-formed heap of the events that were there and the new one.
  pub insert_correct :
      (g : Option Heap) (e : Event) → WellFormed m g → Returns (Inserted m g e) (insert m g e)
  unfolding insert heap_size
  insert_correct none e v =
      insert_into none (allocate m) e allocate-IsValid (unfold allocate in refl)
        (unfold allocate count in λ p. refl)
  insert_correct (some h) e v = insert_into (some h) h e v refl (λ p. refl)
