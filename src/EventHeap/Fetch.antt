-- ===== src/EventHeap/Fetch.antt =====
-- eventheap_peek(), eventheap_fetch() and eventheap_fetchtriggered().
use icmond.Prelude.{
  sym, ◌∙◌, update, ℕ, zero, suc, ◌+◌, ◌-◌, ◌≤◌, ◌<◌, ◌≡◌, refl, ap, Bool, false, Option, none,
  some, arith, ltb, ltb_ℤ, ℤ, ◌≤ℤ◌, ok, Returns, returns, Bool-cases, inl, inr,
}
use icmond.EventTypes.{Event}
use icmond.EventHeap.{
  Alloc, Slots, Heap, capacity, heap_size, peek, fetch_root, fetch, fetch_triggered,
}
use icmond.EventHeap.Order.{count, count-update, IsValid, IsLive, event_at, key, root_least}
use icmond.EventHeap.Access.{load-ok, store-ok, val-ok}
use icmond.EventHeap.Down.{DownInv, heapify_restores}
use icmond.EventHeap.Insert.{WellFormed, count_in, one_if}

-- No event of `g` triggers before `e`.
abbrev pub IsFirst : Event → Option Heap → Type 0
IsFirst e none = Unit
IsFirst e (some h) = (i : ℕ) → 1 ≤ i → i ≤ h.size → e.next_trigger ≤ℤ key h.slots i

-- `e` is an event of `g` that triggers no later than any other, and `g'` is well formed and holds the
-- others.
pub record Fetched (m : Alloc) (g : Option Heap) (e : Event) (g' : Option Heap) : Type 0 where
  pub valid : WellFormed m g'
  pub size_is : heap_size g' + 1 ≡ heap_size g
  pub events : (p : Event → Bool) → count_in p g' + one_if (p e) ≡ count_in p g
  pub first : IsFirst e g

count-shrink :
    (p : Event → Bool) (s : Slots) (n : ℕ)
    → 1 ≤ n
    → count p s n ≡ count p s (n - 1) + one_if (p (event_at s n))
unfolding count
count-shrink p s zero h = absurd (omega arith)
count-shrink p s (suc n) h = let e : suc n - 1 ≡ n = omega arith in rw e

module _ (m : Alloc) (h : Heap) (v : IsValid m h) (some_left : 1 ≤ h.size) where
  -- The block that eventheap_fetch() hands to heapify().
  abbrev moved : Heap
  moved = record h { size = h.size - 1; slots = update h.slots 1 (h.slots h.size) }

  moved-DownInv : DownInv m moved 1
  moved-DownInv = record {
    above = omega arith;
    room = omega (arith, v.room);
    reach = omega (arith, v.room);
    root_live = ground (arith, v.live h.size);
    live = λ i p q. ground (arith, v.live i p, v.live h.size);
    edges = λ c p q r. ground (arith, v.order c p);
    bridged = λ c p q r s. absurd (omega arith);
  }

  moved-count :
      (p : Event → Bool)
      → count p moved.slots (h.size - 1) + one_if (p (event_at h.slots 1)) ≡ count p h.slots h.size
  moved-count p = ground (
    arith,
    count-update p h.slots h.size 1 (h.slots h.size),
    count-shrink p moved.slots h.size some_left,
  )

  fetch_root_correct :
      (h' : Heap) × (fetch_root m h ≡ ok (some (event_at h.slots 1), h'))
      × Fetched m (some h) (event_at h.slots 1) (some h')
  unfolding fetch_root
  fetch_root_correct =
      let fits : h.size < capacity m h = v.room in
      let one : 1 < capacity m h = omega (arith, v.room) in
      let root : IsLive h.slots 1 = v.live 1 (omega arith) some_left in
      let (b, run, s) = heapify_restores (h.size - 1 + 1) m moved 1 (omega arith) moved-DownInv in
      (
        b,
        rw (load-ok m h 1 one, load-ok m h h.size fits, store-ok m h 1 (h.slots h.size) one, run)
            (ap (λ e. ok (e, b)) root),
        record {
          valid = record {
            room = rw (s.size_kept, s.block_kept) (omega (arith, v.room));
            live = s.live;
            order = s.order;
          };
          size_is = unfold heap_size in omega (arith, s.size_kept);
          events = λ p. rw s.size_kept (rw (s.same p) (moved-count p));
          first = λ i. root_least h.slots h.size i v.order;
        },
      )

  pub fetch-root :
      (h' : Heap) × (fetch m (some h) ≡ ok (some (event_at h.slots 1), some h'))
      × Fetched m (some h) (event_at h.slots 1) (some h')
  unfolding fetch
  fetch-root =
      let (h', run, f) = fetch_root_correct in
      let full : ltb h.size 1 ≡ false = ground arith in (h', rw (full, run), f)

-- How a call that may take an event out of `g` ends: with the event and the rest, or with NULL.
abbrev pub FetchedOr : Alloc → Option Heap → Option Event × Option Heap → Type 0
FetchedOr m g (none, g') = (heap_size g ≡ 0) × (g' ≡ g)
FetchedOr m g (some e, g') = Fetched m g e g'

-- The next event of `g` is due at `now`.
abbrev pub IsDue : Option Heap → ℤ → Type 0
IsDue none now = ⊥
IsDue (some h) now = (1 ≤ h.size) × (key h.slots 1 ≤ℤ now)

abbrev pub TriggeredOr : Alloc → Option Heap → ℤ → Option Event × Option Heap → Type 0
TriggeredOr m g now (none, g') = (¬ IsDue g now) × (g' ≡ g)
TriggeredOr m g now (some e, g') = (e.next_trigger ≤ℤ now) × Fetched m g e g'

module _ (m : Alloc) where
  -- eventheap_fetch() on a well-formed heap always returns. It returns NULL and changes nothing if
  -- there is no event. Otherwise it removes and returns an event that triggers no later than any
  -- other, and leaves a well-formed heap of exactly the others.
  pub fetch_correct : (g : Option Heap) → WellFormed m g → Returns (FetchedOr m g) (fetch m g)
  fetch_correct none v = unfold fetch heap_size in returns (none, none) (refl, refl)
  fetch_correct (some h) v = elim (Bool-cases (ltb h.size 1)) [
    | inl empty ↦ unfold fetch heap_size in rw empty (returns (none, some h) (ground arith, refl))
    | inr full ↦
        let (h', run, f) = fetch-root m h v (ground arith) in
        rw run (returns (some (event_at h.slots 1), some h') f)
  ]

  -- eventheap_peek() returns NULL for an empty heap, and otherwise the event that eventheap_fetch()
  -- would return.
  pub peek_correct :
      (g : Option Heap)
      → WellFormed m g
      → (g' : Option Heap) × (e : Option Event) × (peek m g ≡ ok e) × (fetch m g ≡ ok (e, g'))
  unfolding peek
  peek_correct none v = (none, none, refl, unfold fetch in refl)
  peek_correct (some h) v = elim (Bool-cases (ltb h.size 1)) [
    | inl empty ↦ (some h, none, rw empty, unfold fetch in rw empty)
    | inr full ↦
        let (h', run, f) = fetch-root m h v (ground arith) in
        let one : 1 < capacity m h = ground (arith, v.room) in
        (
          some h',
          some (event_at h.slots 1),
          rw (full, load-ok m h 1 one) (ap ok (v.live 1 (omega arith) (ground arith))),
          run,
        )
  ]

  same_result : {r r' : Option Event × Option Heap} → ok r ≡ ok r' → r ≡ r'
  same_result e = cc

  pub peek-FetchedOr :
      (g : Option Heap)
      → WellFormed m g
      → Returns (λ e. (g' : Option Heap) × FetchedOr m g (e, g')) (peek m g)
  peek-FetchedOr g v =
      let (_, e, peeked, fetched) = peek_correct g v in
      let ((e', g'), run, f) = fetch_correct g v in
      let same = ap (λ (r : Option Event × Option Heap). r.0) (same_result (sym fetched ∙ run)) in
      (e', peeked ∙ ap ok same, (g', f))

  -- eventheap_fetchtriggered(now) always returns: eventheap_fetch()'s result if the next event is due
  -- at `now`, and NULL with the heap unchanged if it is not or there is none.
  pub fetch_triggered_correct :
      (g : Option Heap) (now : ℤ)
      → WellFormed m g
      → Returns (TriggeredOr m g now) (fetch_triggered m g now)
  unfolding fetch_triggered
  fetch_triggered_correct none now v = returns (none, none) (λ d. d, refl)
  fetch_triggered_correct (some h) now v = elim (Bool-cases (ltb h.size 1)) [
    | inl empty ↦ rw empty (returns (none, some h) (λ d. ground arith, refl))
    | inr full ↦
        let one : 1 < capacity m h = ground (arith, v.room) in
        let live : IsLive h.slots 1 = v.live 1 (omega arith) (ground arith) in
        rw (full, val-ok m h 1 one live)
          (elim (Bool-cases (ltb_ℤ now (key h.slots 1))) [
            | inl late ↦ rw late (returns (none, some h) (λ d. ground arith, refl))
            | inr due ↦
                let (h', run, f) = fetch-root m h v (ground arith) in
                rw (due, run) (returns (some (event_at h.slots 1), some h') (ground arith, f))
          ])
  ]
