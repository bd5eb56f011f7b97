-- ===== src/EventHeap/Access.antt =====
-- Reads, writes and swaps of eventheap.c inside the block and at live slots succeed.
use icmond.Prelude.{
  update, ℕ, ◌≤◌, ◌<◌, ◌≡◌, Option, arith, ltb_ℤ, leb, lt→ltb, if◌then◌else◌, ok, false,
}
use icmond.EventTypes.{Event}
use icmond.EventHeap.{Alloc, Heap, capacity, load, store, val, swap, below}
use icmond.EventHeap.Order.{key, IsLive, swapped}

module _ (m : Alloc) (h : Heap) where
  pub load-ok : (i : ℕ) → i < capacity m h → load m h i ≡ ok (h.slots i)
  unfolding load
  load-ok i p = rw (lt→ltb i (capacity m h) p)

  pub store-ok :
      (i : ℕ) (v : Option Event)
      → i < capacity m h
      → store m h i v ≡ ok (record h { slots = update h.slots i v })
  unfolding store
  store-ok i v p = rw (lt→ltb i (capacity m h) p)

  pub val-ok : (i : ℕ) → i < capacity m h → IsLive h.slots i → val m h i ≡ ok (key h.slots i)
  unfolding val
  val-ok i p l = rw (load-ok i p, l)

  pub swap-ok :
      (i j : ℕ)
      → i < capacity m h
      → j < capacity m h
      → swap m h i j ≡ ok (record h { slots = swapped h.slots i j })
  unfolding swap load store
  swap-ok i j p q = rw (lt→ltb i (capacity m h) p, lt→ltb j (capacity m h) q)

  pub below-ok :
      (i j : ℕ)
      → h.size < capacity m h
      → j < capacity m h
      → (i ≤ h.size → IsLive h.slots i)
      → IsLive h.slots j
      → below m h i j ≡ ok (if leb i h.size then ltb_ℤ (key h.slots i) (key h.slots j) else false)
  unfolding below
  below-ok i j room q l k = ground (arith, val-ok i, val-ok j q k)
