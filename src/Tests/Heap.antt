-- ===== src/Tests/Heap.antt =====
-- Runs of the heap of eventheap.c, and its theorems at concrete blocks.
use icmond.EventHeap.Queue.{
  Operation, inserting, peeking, fetching, fetching_triggered, destroying, perform_all,
  promised_all,
}
use icmond.EventHeap.Refines.{Represents, perform_all_correct}
use icmond.Prelude.{
  ℕ, ◌+◌, ◌≡◌, refl, Option, none, some, List, [], ◌∷◌, ℤ, pos, Run, ok, ◌>>=◌, Returns, ◌==◌,
  if◌then◌else◌, arith,
}
use icmond.EventTypes.{Event, zero_event}
use icmond.EventHeap.{
  Alloc, Heap, insert, bubble_up, heapify, fetch, fetch_triggered, fetch_all, heap_size,
}
use icmond.EventHeap.Insert.{Inserted, WellFormed, insert_correct}
use icmond.EventHeap.Fetch.{FetchedOr, TriggeredOr, fetch_correct, fetch_triggered_correct}
use icmond.EventHeap.Drain.{Drained, fetch_all-Drains}

abbrev pub malloc : Alloc
malloc = record {
  sizeof_ptr = 4;
  usable = λ n. n + 4;
  usable_ge = λ n. omega arith;
  ptr_pos = omega arith;
  ptr_le = omega arith;
}

abbrev pub at : ℕ → Event
at t = record zero_event { next_trigger = pos t }

abbrev three : Run Heap
three = do
  a ← insert malloc none (at 9)
  b ← insert malloc (some a) (at 4)
  insert malloc (some b) (at 7)

abbrev triggers : List Event × Option Heap → List ℤ
triggers (es, _) = go es
  where
    go : List Event → List ℤ
    go [] = []
    go (e ∷ more) = e.next_trigger ∷ go more

drain_three :
    (three >>= λ h. fetch_all malloc 4 (some h) >>= λ r. ok (triggers r))
    ≡ ok (pos 4 ∷ pos 7 ∷ pos 9 ∷ [])
unfolding insert bubble_up fetch_all heapify
drain_three = refl

abbrev pub two : Heap
two = record {
  usable_size = 1028;
  size = 2;
  slots = λ i. if i == 1 then some (at 4) else if i == 2 then some (at 9) else none;
}

pub two-WellFormed : WellFormed malloc (some two)
two-WellFormed = record {
  room = omega arith;
  live = λ i p q. ground arith;
  order = λ c p q. ground arith;
}

insert_correct_example :
    Returns (Inserted malloc (some two) (at 5)) (insert malloc (some two) (at 5))
insert_correct_example = insert_correct malloc (some two) (at 5) two-WellFormed

fetch_correct_example : Returns (FetchedOr malloc (some two)) (fetch malloc (some two))
fetch_correct_example = fetch_correct malloc (some two) two-WellFormed

fetch_triggered_correct_example :
    Returns (TriggeredOr malloc (some two) (pos 6)) (fetch_triggered malloc (some two) (pos 6))
fetch_triggered_correct_example = fetch_triggered_correct malloc (some two) (pos 6) two-WellFormed

fetch_all-Drains_example :
    Returns (λ (events, g'). Drained malloc (some two) events g') (fetch_all malloc 3 (some two))
unfolding heap_size
fetch_all-Drains_example = fetch_all-Drains malloc 3 (some two) (omega arith) two-WellFormed

abbrev calls : List Operation
calls =
    inserting (at 9)
    ∷ inserting (at 4)
    ∷ peeking
    ∷ fetching
    ∷ fetching_triggered (pos 5)
    ∷ destroying
    ∷ fetching
    ∷ []

promised_runs :
    promised_all calls []
    ≡ (none ∷ none ∷ some (pos 4) ∷ some (pos 4) ∷ none ∷ none ∷ none ∷ [], [])
unfolding promised_all
promised_runs = refl

perform_all_correct_example :
    Returns
      (λ (ts, g').
        (ts ≡ (promised_all calls []).0) × Represents malloc g' (promised_all calls []).1)
      (perform_all malloc calls none)
perform_all_correct_example = perform_all_correct malloc calls
