-- ===== src/EventHeap/Drain.antt =====
-- The loops that empty the heap by eventheap_fetch(): eventheap_destroy() and bsprint_eventheap().
use icmond.Prelude.{
  ℕ, zero, suc, ◌+◌, ◌≤◌, ◌<◌, ◌≡◌, refl, sym, Bool, false, Option, none, some, List, [], ◌∷◌,
  arith, length, All, ltb_ℤ, leb_ℤ, ℤ, Bool-cases, inl, inr, ◌≤ℤ◌, Returns, returns, ok,
}
use icmond.EventTypes.{Event}
use icmond.EventHeap.{Alloc, Slots, Heap, heap_size, fetch, fetch_all, destroy, bsprint_eventheap}
use icmond.EventHeap.Order.{count, event_at, key, root_least}
use icmond.EventHeap.Insert.{WellFormed, count_in, one_if}
use icmond.EventHeap.Fetch.{Fetched, FetchedOr, IsFirst, IsDue, fetch_correct}

-- How many events of a list pass a test.
abbrev pub tally : (Event → Bool) → List Event → ℕ
tally p [] = 0
tally p (e ∷ es) = tally p es + one_if (p e)

-- In the order in which the events trigger.
abbrev pub IsSorted : List Event → Type 0
IsSorted [] = Unit
IsSorted (e ∷ es) = All (λ d. e.next_trigger ≤ℤ d.next_trigger) es × IsSorted es

-- `events` are all the events of `g`, in the order in which they trigger; none is left in `g'`.
pub record Drained (m : Alloc) (g : Option Heap) (events : List Event) (g' : Option Heap)
    : Type 0 where
  pub sorted : IsSorted events
  pub same : (p : Event → Bool) → tally p events ≡ count_in p g
  pub all : length events ≡ heap_size g
  pub valid : WellFormed m g'
  pub none_left : heap_size g' ≡ 0

count-eq-zero :
    (p : Event → Bool) (s : Slots) (n : ℕ)
    → ((i : ℕ) → 1 ≤ i → i ≤ n → p (event_at s i) ≡ false)
    → count p s n ≡ 0
unfolding count
count-eq-zero p s zero h = refl
count-eq-zero p s (suc n) h =
    let rest = count-eq-zero p s n (λ i q r. h i q (omega arith)) in ground (arith, rest, h (suc n))

-- If the next event is not due, none is.
pub none_due :
    (m : Alloc) (g : Option Heap) (now : ℤ)
    → WellFormed m g
    → ¬ IsDue g now
    → count_in (λ e. leb_ℤ e.next_trigger now) g ≡ 0
none_due m none now v idle = refl
none_due m (some h) now v idle =
    count-eq-zero (λ e. leb_ℤ e.next_trigger now) h.slots h.size
      λ i lower upper.
        let least = root_least h.slots h.size i v.order lower upper in
        elim (Bool-cases (leb_ℤ (key h.slots 1) now)) [
          | inl due ↦ absurd (idle (omega arith, ground arith))
          | inr later ↦ ground arith
        ]

unfoldable pub earlier : Event → Event → Bool
earlier e d = ltb_ℤ d.next_trigger e.next_trigger

All_of_tally :
    (e : Event) (es : List Event)
    → tally (earlier e) es ≡ 0
    → All (λ d. e.next_trigger ≤ℤ d.next_trigger) es
unfolding earlier
All_of_tally e [] h = tt
All_of_tally e (d ∷ es) h = (ground arith, All_of_tally e es (omega arith))

pub none_earlier : (e : Event) (g : Option Heap) → IsFirst e g → count_in (earlier e) g ≡ 0
unfolding earlier
none_earlier e none f = refl
none_earlier e (some h) f = count-eq-zero (earlier e) h.slots h.size (λ i p q. ground (arith, f i))

pub count_in_empty : (p : Event → Bool) (g : Option Heap) → heap_size g ≡ 0 → count_in p g ≡ 0
unfolding heap_size count
count_in_empty p none h = refl
count_in_empty p (some g) h = rw h

module _ (m : Alloc) where
  cons-Drained :
      (g : Option Heap) (e : Event) (g' : Option Heap) (es : List Event) (g'' : Option Heap)
      → Fetched m g e g'
      → Drained m g' es g''
      → Drained m g (e ∷ es) g''
  cons-Drained g e g' es g'' f d = record {
    sorted = (
      All_of_tally e es
          (omega (arith, d.same (earlier e), f.events (earlier e), none_earlier e g f.first)),
      d.sorted,
    );
    same = λ p. omega (arith, d.same p, f.events p);
    all = omega (arith, d.all, f.size_is);
    valid = d.valid;
    none_left = d.none_left;
  }

  abbrev Drains : ℕ → Option Heap → Type 0
  Drains k g = Returns (λ (events, g'). Drained m g events g') (fetch_all m k g)

  drain_step :
      (k : ℕ) (g : Option Heap) (e : Option Event) (g' : Option Heap)
      → WellFormed m g
      → fetch m g ≡ ok (e, g')
      → FetchedOr m g (e, g')
      → heap_size g < suc k
      → (WellFormed m g' → heap_size g' < k → Drains k g')
      → Drains (suc k) g
  unfolding fetch_all
  drain_step k g none g' v run (empty, same) f rest =
      let left : heap_size g' ≡ 0 = rw same empty in
      rw run (
        returns ([], g')
          (record {
            sorted = tt;
            same = λ p. sym (count_in_empty p g empty);
            all = sym empty;
            valid = rw same v;
            none_left = left;
          }))
  drain_step k g (some e) g' v run fetched f rest =
      let ((es, g''), again, d) = rest fetched.valid (omega (arith, fetched.size_is)) in
      rw (run, again) (returns (e ∷ es, g'') (cons-Drained g e g' es g'' fetched d))

  -- The loop `while ((event = eventheap_fetch()))` ends with enough fuel for the events and one more
  -- round, and yields all of them in the order in which they trigger.
  pub fetch_all-Drains : (k : ℕ) (g : Option Heap) → heap_size g < k → WellFormed m g → Drains k g
  fetch_all-Drains zero g f v = absurd (omega arith)
  fetch_all-Drains (suc k) g f v =
      let ((e, g'), run, fetched) = fetch_correct m g v in
      drain_step k g e g' v run fetched f (λ v' f'. fetch_all-Drains k g' f' v')

  -- eventheap_destroy() on a well-formed heap always returns: it frees each event of the heap once, in
  -- the order in which they trigger, and leaves g_heap NULL.
  pub destroy_correct :
      (g : Option Heap)
      → WellFormed m g
      → Returns
          (λ (freed, g').
            IsSorted freed × ((p : Event → Bool) → tally p freed ≡ count_in p g) × (g' ≡ none))
          (destroy m g)
  unfolding destroy
  destroy_correct none v = returns ([], none) (tt, λ p. refl, refl)
  destroy_correct (some h) v =
      let ((freed, g'), run, d) =
        fetch_all-Drains (h.size + 1) (some h) (unfold heap_size in omega arith) v in
      rw run (returns (freed, none) (d.sorted, d.same, refl))

  -- bsprint_eventheap() on a well-formed heap always returns: it prints each event of the heap once, in
  -- the order in which they trigger, and leaves the heap as it was.
  pub bsprint_eventheap_correct :
      (g : Option Heap)
      → WellFormed m g
      → Returns
          (λ (printed, g').
            IsSorted printed × ((p : Event → Bool) → tally p printed ≡ count_in p g) × (g' ≡ g))
          (bsprint_eventheap m g)
  unfolding bsprint_eventheap
  bsprint_eventheap_correct none v = returns ([], none) (tt, λ p. refl, refl)
  bsprint_eventheap_correct (some h) v =
      let ((printed, g'), run, d) =
        fetch_all-Drains (h.size + 1) (some h) (unfold heap_size in omega arith) v in
      rw run (returns (printed, some h) (d.sorted, d.same, refl))
