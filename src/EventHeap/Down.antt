-- ===== src/EventHeap/Down.antt =====
-- heapify() restores the heap order below one slot.
use icmond.Prelude.{
  ℕ, zero, suc, ◌+◌, ◌-◌, ◌*◌, ◌/◌, ◌≤◌, ◌<◌, ◌≡◌, ◌≢◌, ◌⊎◌, refl, arith, ltb_ℤ, eqb_ℤ, ◌≤ℤ◌, ◌<ℤ◌,
  ok, Returns, returns, Returns-map, leb, if◌then◌else◌, Bool, true, false, Bool-cases, inl, inr,
}
use icmond.EventHeap.{Alloc, Heap, capacity, smallest_of, heapify}
use icmond.EventHeap.Order.{key, IsLive, AllLive, IsBridged, swapped}
use icmond.EventHeap.Access.{val-ok, swap-ok, below-ok}
use icmond.EventHeap.Up.{Sifted, Sifted-swap}

-- Only the edges below `i` may be out of order. Slot `i` is read even in an empty heap.
pub record DownInv (m : Alloc) (h : Heap) (i : ℕ) : Type 0 where
  pub above : 1 ≤ i
  pub room : h.size < capacity m h
  pub reach : i < capacity m h
  pub root_live : IsLive h.slots i
  pub live : AllLive h.slots h.size
  pub edges : (c : ℕ) → 2 ≤ c → c ≤ h.size → c / 2 ≢ i → key h.slots (c / 2) ≤ℤ key h.slots c
  pub bridged : IsBridged h.slots h.size i

-- `c` is `i` or the child of `i` that triggers before the other and before `i`.
record IsSmallest (h : Heap) (i c : ℕ) : Type 0 where
  place : (c ≡ i) ⊎ ((c ≤ h.size) × ((c ≡ 2 * i) ⊎ (c ≡ 2 * i + 1)))
  before_left : 2 * i ≤ h.size → key h.slots c ≤ℤ key h.slots (2 * i)
  before_right : 2 * i + 1 ≤ h.size → key h.slots c ≤ℤ key h.slots (2 * i + 1)
  before_root : key h.slots c ≤ℤ key h.slots i

-- The test `index <= HEAPSIZE && VAL(index) < VAL(other)` with its reads taken for granted.
abbrev is_below : Heap → ℕ → ℕ → Bool
is_below h c other = if leb c h.size then ltb_ℤ (key h.slots c) (key h.slots other) else false

abbrev least_left : Heap → ℕ → ℕ
least_left h i = if is_below h (2 * i) i then 2 * i else i

abbrev least : Heap → ℕ → ℕ
least h i = if is_below h (2 * i + 1) (least_left h i) then 2 * i + 1 else least_left h i

module _ (m : Alloc) (h : Heap) (i : ℕ) (v : DownInv m h i) where
  left_inside : least_left h i < capacity m h
  left_inside = ground (arith, v.reach, v.room)

  left-IsLive : IsLive h.slots (least_left h i)
  left-IsLive = ground (arith, v.root_live, v.above, v.live (2 * i))

  smallest_of-ok : smallest_of m h i ≡ ok (least h i)
  unfolding smallest_of
  smallest_of-ok = rw (
    below-ok m h (2 * i) i v.room v.reach (v.live (2 * i) (omega (arith, v.above))) v.root_live,
    below-ok m h (2 * i + 1) (least_left h i) v.room left_inside
        (v.live (2 * i + 1) (omega (arith, v.above))) left-IsLive,
  )

  least-IsSmallest : IsSmallest h i (least h i)
  least-IsSmallest = ground arith

  least_inside : least h i < capacity m h
  least_inside = ground (arith, v.reach, v.room)

  least-IsLive : IsLive h.slots (least h i)
  least-IsLive = ground (arith, left-IsLive, v.above, v.live (2 * i + 1))

  -- heapify() stops where the root is not later than its children.
  settled : eqb_ℤ (key h.slots (least h i)) (key h.slots i) ≡ true → Sifted h h
  settled e =
      let s = least-IsSmallest in
      record {
        size_kept = refl;
        block_kept = refl;
        live = v.live;
        order = λ c p q. ground (arith, v.edges c, s.before_left, s.before_right);
        same = λ p. refl;
      }

  module _ (moved : eqb_ℤ (key h.slots (least h i)) (key h.slots i) ≡ false) where
    least_child : (least h i ≤ h.size) × ((least h i ≡ 2 * i) ⊎ (least h i ≡ 2 * i + 1))
    least_child = ground arith

    least_earlier : key h.slots (least h i) <ℤ key h.slots i
    least_earlier = ground (arith, least-IsSmallest.before_root)

swap-DownInv :
    (m : Alloc) (h : Heap) (i c : ℕ)
    → DownInv m h i
    → IsSmallest h i c
    → c ≤ h.size
    → (c ≡ 2 * i) ⊎ (c ≡ 2 * i + 1)
    → DownInv m (record h { slots = swapped h.slots c i }) c
swap-DownInv m h i c v s inside child =
    let pos = v.above in
    record {
      above = omega arith;
      room = v.room;
      reach = omega (arith, v.room);
      root_live = ground (arith, v.root_live);
      live = λ d q r. ground (arith, v.live d q r, v.live c, v.root_live);
      edges = λ d q r t. ground (
        arith,
        v.edges d,
        v.bridged d,
        v.bridged c,
        s.before_left,
        s.before_right,
        s.before_root,
      );
      bridged = λ d q r t u. ground (arith, v.edges d);
    }

-- heapify() ends, with at least as much fuel as there are slots below `i`.
pub heapify_restores :
    (k : ℕ) (m : Alloc) (h : Heap) (i : ℕ)
    → h.size - i < k
    → DownInv m h i
    → Returns (Sifted h) (heapify m k h i)
unfolding heapify
heapify_restores zero m h i f v = absurd (omega arith)
heapify_restores (suc k) m h i f v =
    let c = least h i in
    let stop = settled m h i v in
    let child = least_child m h i v in
    let s = least-IsSmallest m h i v in
    rw
      (
        smallest_of-ok m h i v,
        val-ok m h c (least_inside m h i v) (least-IsLive m h i v),
        val-ok m h i v.reach v.root_live,
        swap-ok m h c i (least_inside m h i v) v.reach,
      )
      (elim (Bool-cases (eqb_ℤ (key h.slots c) (key h.slots i))) [
        | inl same ↦ rw same (returns h (stop same))
        | inr moved ↦
            let (inside, side) = child moved in
            let pos = v.above in
            rw moved (
              Returns-map
                (heapify_restores k m (record h { slots = swapped h.slots c i }) c (omega arith)
                  (swap-DownInv m h i c v s inside side))
                (λ b t. Sifted-swap h b c i (omega arith) inside pos (omega arith) t))
      ])
