-- ===== src/EventHeap/Up.antt =====
-- The `while` of eventheap_insert() restores the heap order of a block whose last edge is new.
use icmond.Prelude.{
  ℕ, zero, suc, ◌/◌, ◌≤◌, ◌<◌, ◌≡◌, ◌≢◌, refl, ◌∙◌, arith, ltb, ltb_ℤ, ◌≤ℤ◌, ◌<ℤ◌, Returns, returns,
  Returns-map, Returns-if,
}
use icmond.EventHeap.{Alloc, Heap, capacity, bubble_up}
use icmond.EventHeap.Order.{key, AllLive, IsHeap, IsBridged, SameEvents, swapped, count-swapped}
use icmond.EventHeap.Access.{val-ok, swap-ok}

-- Only the edge above `i` may be out of order.
pub record UpInv (m : Alloc) (h : Heap) (i : ℕ) : Type 0 where
  pub above : 1 ≤ i
  pub inside : i ≤ h.size
  pub room : h.size < capacity m h
  pub live : AllLive h.slots h.size
  pub edges : (c : ℕ) → 2 ≤ c → c ≤ h.size → c ≢ i → key h.slots (c / 2) ≤ℤ key h.slots c
  pub bridged : IsBridged h.slots h.size i

-- `k` is `h` with its events in heap order.
pub record Sifted (h k : Heap) : Type 0 where
  pub size_kept : k.size ≡ h.size
  pub block_kept : k.usable_size ≡ h.usable_size
  pub live : AllLive k.slots k.size
  pub order : IsHeap k.slots k.size
  pub same : SameEvents k.slots h.slots h.size

pub Sifted-swap :
    (h k : Heap) (i j : ℕ)
    → 1 ≤ i
    → i ≤ h.size
    → 1 ≤ j
    → j ≤ h.size
    → Sifted (record h { slots = swapped h.slots i j }) k
    → Sifted h k
Sifted-swap h k i j p q r t s = record {
  size_kept = s.size_kept;
  block_kept = s.block_kept;
  live = s.live;
  order = s.order;
  same = λ f. s.same f ∙ count-swapped f h.slots h.size i j p q r t;
}

swap-UpInv :
    (m : Alloc) (h : Heap) (i : ℕ)
    → UpInv m h i
    → 1 < i
    → key h.slots i <ℤ key h.slots (i / 2)
    → UpInv m (record h { slots = swapped h.slots i (i / 2) }) (i / 2)
swap-UpInv m h i v p below = record {
  above = omega arith;
  inside = omega arith;
  room = v.room;
  live = λ c q r. ground (arith, v.live c q r, v.live i v.above v.inside, v.live (i / 2));
  edges = λ c q r t. ground (arith, v.edges c, v.bridged c);
  bridged = λ c q r t u. ground (arith, v.edges (i / 2), v.edges c);
}

pub bubble_up_restores :
    (k : ℕ) (m : Alloc) (h : Heap) (i : ℕ)
    → i < k
    → UpInv m h i
    → Returns (Sifted h) (bubble_up m k h i)
unfolding bubble_up
bubble_up_restores zero m h i f v = absurd (omega arith)
bubble_up_restores (suc k) m h i f v =
    Returns-if (ltb 1 i)
      (λ pos.
        let parent_in : i / 2 ≤ h.size = omega (arith, v.inside) in
        let parent_pos : 1 ≤ i / 2 = ground arith in
        let hi : i < capacity m h = omega (arith, v.inside, v.room) in
        let hp : i / 2 < capacity m h = omega (arith, v.room) in
        rw
          (
            val-ok m h i hi (v.live i v.above v.inside),
            val-ok m h (i / 2) hp (v.live (i / 2) parent_pos parent_in),
            swap-ok m h i (i / 2) hi hp,
          )
          (Returns-if (ltb_ℤ (key h.slots i) (key h.slots (i / 2)))
            (λ below.
              Returns-map
                (bubble_up_restores k m (record h { slots = swapped h.slots i (i / 2) }) (i / 2)
                  (omega arith) (swap-UpInv m h i v (ground arith) (ground arith)))
                (λ b s. Sifted-swap h b i (i / 2) v.above v.inside parent_pos parent_in s))
            (λ settled. returns h (record {
              size_kept = refl;
              block_kept = refl;
              live = v.live;
              order = λ c p q. ground (arith, v.edges c);
              same = λ p. refl;
            }))))
      (λ root. returns h (record {
        size_kept = refl;
        block_kept = refl;
        live = v.live;
        order = λ c p q. v.edges c p q (ground arith);
        same = λ p. refl;
      }))
