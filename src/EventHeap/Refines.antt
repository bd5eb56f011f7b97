-- ===== src/EventHeap/Refines.antt =====
-- The heap implements the queue of times.
use icmond.Prelude.{
  ℕ, ◌+◌, ◌≡◌, refl, ap, ap₂, Bool, true, false, Bool-cases, inl, inr, Option, none, some, List, [],
  ◌∷◌, arith, All, ℤ, ltb_ℤ, leb_ℤ, ◌≤ℤ◌, int_laws, Run, ok, Returns, returns, Returns-bind,
}
use mathlib.Core.Path.{subst}
use icmond.EventTypes.{Event}
use icmond.EventHeap.{Alloc, Heap, heap_size, fetch_triggered}
use icmond.EventHeap.Insert.{WellFormed, count_in, one_if, insert_correct}
use icmond.EventHeap.Fetch.{
  Fetched, FetchedOr, TriggeredOr, fetch_correct, fetch_triggered_correct, peek-FetchedOr, IsDue,
}
use icmond.EventHeap.Drain.{earlier, none_earlier, none_due, count_in_empty, destroy_correct}
use icmond.EventHeap.Queue.{
  Operation, inserting, peeking, fetching, fetching_triggered, destroying, time_of, perform,
  perform_all, insert_time, promised, promised_all,
}

-- How many times pass a test.
times : (ℤ → Bool) → List ℤ → ℕ
times p [] = 0
times p (t ∷ q) = times p q + one_if (p t)

abbrev Ordered : List ℤ → Type 0
Ordered [] = Unit
Ordered (t ∷ q) = All (λ u. t ≤ℤ u) q × Ordered q

-- The queue lists the times of the events of the heap, in their order.
pub record Represents (m : Alloc) (g : Option Heap) (q : List ℤ) : Type 0 where
  pub valid : WellFormed m g
  ordered : Ordered q
  same : (p : ℤ → Bool) → count_in (λ e. p e.next_trigger) g ≡ times p q

times-insert_time :
    (p : ℤ → Bool) (t : ℤ) (q : List ℤ) → times p (insert_time t q) ≡ times p q + one_if (p t)
unfolding times insert_time
times-insert_time p t [] = refl
times-insert_time p t (u ∷ q) = ground (arith, times-insert_time p t q)

All-insert_time :
    (s t : ℤ) (q : List ℤ) → s ≤ℤ t → All (λ u. s ≤ℤ u) q → All (λ u. s ≤ℤ u) (insert_time t q)
unfolding insert_time
All-insert_time s t [] h a = (h, tt)
All-insert_time s t (u ∷ q) h (a, b) = elim (Bool-cases (leb_ℤ t u)) [
  | inl first ↦ rw first (h, (a, b))
  | inr behind ↦ rw behind (a, All-insert_time s t q h b)
]

All_weaken : (s t : ℤ) (q : List ℤ) → s ≤ℤ t → All (λ u. t ≤ℤ u) q → All (λ u. s ≤ℤ u) q
All_weaken s t [] h a = tt
All_weaken s t (u ∷ q) h (a, b) = (omega arith, All_weaken s t q h b)

Ordered-insert_time : (t : ℤ) (q : List ℤ) → Ordered q → Ordered (insert_time t q)
unfolding insert_time
Ordered-insert_time t [] o = (tt, tt)
Ordered-insert_time t (u ∷ q) (a, o) = elim (Bool-cases (leb_ℤ t u)) [
  | inl first ↦ rw first ((ground arith, All_weaken t u q (ground arith) a), (a, o))
  | inr behind ↦ rw behind (All-insert_time u t q (ground arith) a, Ordered-insert_time t q o)
]

none_before : (t : ℤ) (q : List ℤ) → All (λ u. t ≤ℤ u) q → times (λ u. ltb_ℤ u t) q ≡ 0
unfolding times
none_before t [] a = refl
none_before t (u ∷ q) (a, b) = ground (arith, none_before t q b)

≤ℤ_antisym : (t u : ℤ) → t ≤ℤ u → u ≤ℤ t → t ≡ u
≤ℤ_antisym t u h k = omega int_laws

module _ (m : Alloc) where
  -- What is fetched is the first time of the queue.
  head_time :
      (g g' : Option Heap) (e : Event) (t : ℤ) (q : List ℤ)
      → Fetched m g e g'
      → Represents m g (t ∷ q)
      → e.next_trigger ≡ t
  unfolding times earlier
  head_time g g' e t q f r =
      let not_before = f.events (λ d. ltb_ℤ d.next_trigger t) in
      let listed = r.same (λ u. ltb_ℤ u t) in
      let rest = none_before t q r.ordered.0 in
      let above : t ≤ℤ e.next_trigger = ground arith in
      let first = none_earlier e g f.first in
      let listed' = r.same (λ u. ltb_ℤ u e.next_trigger) in
      let below : e.next_trigger ≤ℤ t = ground arith in ≤ℤ_antisym e.next_trigger t below above

  Fetched-rest :
      (g g' : Option Heap) (e : Event) (t : ℤ) (q : List ℤ)
      → Fetched m g e g'
      → Represents m g (t ∷ q)
      → Represents m g' q
  unfolding times
  Fetched-rest g g' e t q f r = record {
    valid = f.valid;
    ordered = r.ordered.1;
    same = λ p.
        let e' : p e.next_trigger ≡ p t = ap p (head_time g g' e t q f r) in
        ground (arith, f.events (λ d. p d.next_trigger), r.same p);
  }

  not_empty : (g g' : Option Heap) (e : Event) → Fetched m g e g' → Represents m g [] → ⊥
  unfolding times
  not_empty g g' e f r = ground (arith, f.events (λ d. true), r.same (λ d. true))

  empty_queue :
      (g : Option Heap) (t : ℤ) (q : List ℤ) → heap_size g ≡ 0 → Represents m g (t ∷ q) → ⊥
  unfolding times
  empty_queue g t q empty r = ground (arith, count_in_empty (λ d. true) g empty, r.same (λ d. true))

  -- The call returns what the queue promises, and leaves a heap that represents what is left.
  abbrev Keeps : Option ℤ × List ℤ → Run (Option ℤ × Option Heap) → Type 0
  Keeps (t, q) = Returns (λ (t', g'). (t' ≡ t) × Represents m g' q)

  insert-Keeps :
      (e : Event) (g : Option Heap) (q : List ℤ)
      → Represents m g q
      → Keeps (none, insert_time e.next_trigger q) (perform m (inserting e) g)
  unfolding perform
  insert-Keeps e g q r = Returns-bind (insert_correct m g e r.valid) λ h i.
      returns (none, some h)
        (
          refl,
          record {
            valid = i.valid;
            ordered = Ordered-insert_time e.next_trigger q r.ordered;
            same = λ p. omega (
              arith,
              i.events (λ d. p d.next_trigger),
              r.same p,
              times-insert_time p e.next_trigger q,
            );
          },
        )

  fetched-Keeps :
      (g g' : Option Heap) (e : Option Event) (q : List ℤ)
      → FetchedOr m g (e, g')
      → Represents m g q
      → Keeps (promised fetching q) (ok (time_of e, g'))
  unfolding promised
  fetched-Keeps g g' none [] (empty, same) r = returns _ (refl, rw same r)
  fetched-Keeps g g' none (t ∷ q) (empty, same) r = absurd (empty_queue g t q empty r)
  fetched-Keeps g g' (some e) [] f r = absurd (not_empty g g' e f r)
  fetched-Keeps g g' (some e) (t ∷ q) f r =
      returns _ (ap some (head_time g g' e t q f r), Fetched-rest g g' e t q f r)

  peeked-Keeps :
      (g g' : Option Heap) (e : Option Event) (q : List ℤ)
      → FetchedOr m g (e, g')
      → Represents m g q
      → Keeps (promised peeking q) (ok (time_of e, g))
  unfolding promised
  peeked-Keeps g g' none [] (empty, same) r = returns _ (refl, r)
  peeked-Keeps g g' none (t ∷ q) (empty, same) r = absurd (empty_queue g t q empty r)
  peeked-Keeps g g' (some e) [] f r = absurd (not_empty g g' e f r)
  peeked-Keeps g g' (some e) (t ∷ q) f r = returns _ (ap some (head_time g g' e t q f r), r)

  idle_later :
      (g : Option Heap) (now t : ℤ) (q : List ℤ)
      → ¬ IsDue g now
      → Represents m g (t ∷ q)
      → ltb_ℤ now t ≡ true
  unfolding times
  idle_later g now t q idle r =
      ground (arith, none_due m g now r.valid idle, r.same (λ u. leb_ℤ u now))

  triggered-Keeps :
      (g g' : Option Heap) (now : ℤ) (e : Option Event) (q : List ℤ)
      → TriggeredOr m g now (e, g')
      → Represents m g q
      → Keeps (promised (fetching_triggered now) q) (ok (time_of e, g'))
  unfolding promised
  triggered-Keeps g g' now none [] (idle, same) r = returns _ (refl, rw same r)
  triggered-Keeps g g' now none (t ∷ q) (idle, same) r =
      rw (idle_later g now t q idle r) (returns _ (refl, rw same r))
  triggered-Keeps g g' now (some e) [] (due, f) r = absurd (not_empty g g' e f r)
  triggered-Keeps g g' now (some e) (t ∷ q) (due, f) r =
      let first = head_time g g' e t q f r in
      let reached : t ≤ℤ now = subst (λ u. u ≤ℤ now) first due in
      let not_later : ltb_ℤ now t ≡ false = ground arith in
      rw not_later (returns _ (ap some first, Fetched-rest g g' e t q f r))

  triggered-step :
      (g : Option Heap) (now : ℤ) (e : Option Event) (g' : Option Heap) (q : List ℤ)
      → fetch_triggered m g now ≡ ok (e, g')
      → TriggeredOr m g now (e, g')
      → Represents m g q
      → Keeps (promised (fetching_triggered now) q) (perform m (fetching_triggered now) g)
  unfolding perform
  triggered-step g now e g' q run t r = rw run (triggered-Keeps g g' now e q t r)

  perform-Keeps :
      (o : Operation) (g : Option Heap) (q : List ℤ)
      → Represents m g q
      → Keeps (promised o q) (perform m o g)
  unfolding perform promised times
  perform-Keeps (inserting e) g q r = insert-Keeps e g q r
  perform-Keeps peeking g q r =
      let (e, run, (g', f)) = peek-FetchedOr m g r.valid in rw run (peeked-Keeps g g' e q f r)
  perform-Keeps fetching g q r =
      let ((e, g'), run, f) = fetch_correct m g r.valid in rw run (fetched-Keeps g g' e q f r)
  perform-Keeps (fetching_triggered now) g q r =
      let ((e, g'), run, t) = fetch_triggered_correct m g now r.valid in
      triggered-step g now e g' q run t r
  perform-Keeps destroying g q r =
      let ((freed, g'), run, (s, c, gone)) = destroy_correct m g r.valid in
      rw (run, gone)
        (returns (none, none) (refl, record { valid = tt; ordered = tt; same = λ p. refl }))

  perform_all-Represents :
      (os : List Operation) (g : Option Heap) (q : List ℤ)
      → Represents m g q
      → Returns
          (λ (ts, g'). (ts ≡ (promised_all os q).0) × Represents m g' (promised_all os q).1)
          (perform_all m os g)
  unfolding perform_all promised_all
  perform_all-Represents [] g q r = returns ([], g) (refl, r)
  perform_all-Represents (o ∷ os) g q r = Returns-bind (perform-Keeps o g q r) λ (t, g') (same, r').
      Returns-bind (perform_all-Represents os g' (promised o q).1 r')
        λ (ts, g'') (same', r''). returns (t ∷ ts, g'') (ap₂ (λ x xs. x ∷ xs) same same', r'')

  -- Whatever calls of eventheap.c are made one behind the other, from the start, where g_heap is NULL,
  -- they all return, and the times of the events that they return are those that a list of times in
  -- their order promises.
  pub perform_all_correct :
      (os : List Operation)
      → Returns
          (λ (ts, g'). (ts ≡ (promised_all os []).0) × Represents m g' (promised_all os []).1)
          (perform_all m os none)
  unfolding times
  perform_all_correct os =
      perform_all-Represents os none [] record { valid = tt; ordered = tt; same = λ p. refl }
