-- ===== src/EventHeap/Queue.antt =====
-- What eventheap.h promises: the event heap as the list of the times at which its events trigger, in
-- their order, and the operations on it.
use icmond.Prelude.{
  if◌then◌else◌, Option, none, some, List, [], ◌∷◌, ℤ, ltb_ℤ, leb_ℤ, Run, ok, ◌>>=◌,
}
use icmond.EventTypes.{Event}
use icmond.EventHeap.{Alloc, Heap, insert, peek, fetch, fetch_triggered, destroy}

-- The calls of eventheap.c that read or change the heap.
pub data Operation : Type 0 where
  inserting : Event → Operation
  peeking fetching destroying : Operation
  fetching_triggered : ℤ → Operation

-- The time of an event that a call returns.
abbrev pub time_of : Option Event → Option ℤ
time_of none = none
time_of (some e) = some e.next_trigger

-- The call on g_heap: the time of the event that it returns, and g_heap.
unfoldable pub perform : Alloc → Operation → Option Heap → Run (Option ℤ × Option Heap)
unfolding insert peek fetch fetch_triggered destroy
perform m (inserting e) g = do h ← insert m g e; ok (none, some h)
perform m peeking g = do e ← peek m g; ok (time_of e, g)
perform m fetching g = fetch m g >>= λ (e, g'). ok (time_of e, g')
perform m (fetching_triggered now) g = fetch_triggered m g now >>= λ (e, g'). ok (time_of e, g')
perform m destroying g = destroy m g >>= λ (freed, g'). ok (none, g')

-- The calls one behind the other: what they return, and g_heap.
unfoldable pub perform_all :
    Alloc → List Operation → Option Heap → Run (List (Option ℤ) × Option Heap)
unfolding perform
perform_all m [] g = ok ([], g)
perform_all m (o ∷ os) g =
    perform m o g >>= λ (t, g'). perform_all m os g' >>= λ (ts, g''). ok (t ∷ ts, g'')

-- A time takes its place behind the earlier ones.
unfoldable pub insert_time : ℤ → List ℤ → List ℤ
insert_time t [] = t ∷ []
insert_time t (u ∷ q) = let rest = insert_time t q in if leb_ℤ t u then t ∷ (u ∷ q) else u ∷ rest

-- What a call promises: what it returns, and the times that are left.
unfoldable pub promised : Operation → List ℤ → Option ℤ × List ℤ
unfolding insert_time
promised (inserting e) q = (none, insert_time e.next_trigger q)
promised peeking [] = (none, [])
promised peeking (t ∷ q) = (some t, t ∷ q)
promised fetching [] = (none, [])
promised fetching (t ∷ q) = (some t, q)
promised (fetching_triggered now) [] = (none, [])
promised (fetching_triggered now) (t ∷ q) = if ltb_ℤ now t then (none, t ∷ q) else (some t, q)
promised destroying q = (none, [])

unfoldable pub promised_all : List Operation → List ℤ → List (Option ℤ) × List ℤ
unfolding promised
promised_all [] q = ([], q)
promised_all (o ∷ os) q =
    let (t, q') = promised o q in let (ts, q'') = promised_all os q' in (t ∷ ts, q'')
