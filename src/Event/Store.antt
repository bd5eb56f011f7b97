-- ===== src/Event/Store.antt =====
-- event.c: the schedule of parsed events, g_parsed, and the production schedule in the event heap.
pub mod Laws
use Prim.Native.Nat.{bit_and}
use icmond.Prelude.{
  ℕ, zero, suc, ◌+◌, Bool, true, false, not, ◌||◌, ltb, ◌==◌, if◌then◌else◌, List, [], ◌∷◌, Option,
  none, some, length, ℤ, pos, negsuc, ltb_ℤ, get_elem?, Run, ok, exited, ◌>>=◌,
}
use icmond.EventTypes.{
  Bytes, Event, EventAction, zero_event, event_action, action_maxvalue, source_internal, type_once,
  codes,
}
use icmond.EventHeap.{Alloc, Heap, insert, heap_size, fetch, destroy, peek, fetch_triggered}
use icmond.Event.Time.{TimeZone, EventCfg, schedule_next_trigger}

-- event_getactionstr()
unfoldable pub event_getactionstr : ℤ → Bytes
event_getactionstr (negsuc n) = codes "(unknown)"
event_getactionstr (pos n) = elim (get_elem? event_action n) [
  | none ↦ codes "(unknown)"
  | some a ↦ a.name
]

-- event_action[action].default_type, with 0 past the table
unfoldable pub default_type : ℕ → ℕ
default_type action = elim (get_elem? event_action action) [ none ↦ 0 | some a ↦ a.default_type ]

-- event_test_size()
unfoldable pub event_test_size : Option (List Event) → ℕ
event_test_size none = 0
event_test_size (some events) = length events

-- the `for` of event_commit_test_schedule() and the last one of event_schedule_clear()
unfoldable pub insert_all : Alloc → Option Heap → List Event → Run (Option Heap)
insert_all m g [] = ok g
insert_all m g (e ∷ es) = do h ← insert m g e; insert_all m (some h) es

-- event_commit_test_schedule(): g_heap and g_parsed afterwards
unfoldable pub event_commit_test_schedule :
    Alloc → Option Heap → Option (List Event) → Run (Option Heap × Option (List Event))
event_commit_test_schedule m g none = ok (g, none)
event_commit_test_schedule m g (some events) = do g' ← insert_all m g events; ok (g', none)

-- `event->source & source`
unfoldable pub has_source : ℕ → Event → Bool
has_source source e = not (bit_and e.source source == 0)

-- the `while` of event_schedule_clear(): the events that are saved, and g_heap afterwards
unfoldable pub sift_events : Alloc → ℕ → ℕ → Option Heap → Run (List Event × Option Heap)
sift_events m zero source g = Run.out_of_fuel
sift_events m (suc fuel) source g = fetch m g >>= λ (event, g'). elim event [
  | none ↦ ok ([], g')
  | some e ↦ sift_events m fuel source g' >>= λ (saved, g'').
      ok (if has_source source e then saved else e ∷ saved, g'')
]

-- event_schedule_clear()
unfoldable pub event_schedule_clear : Alloc → ℕ → Option Heap → Run (Option Heap)
event_schedule_clear m source g =
    let everything : Run (Option Heap) = (do (_, g') ← destroy m g; ok g') in
    let some_events : Run (Option Heap) = do
      (saved, g') ← sift_events m (heap_size g + 1) source g
      insert_all m g' saved
    in if ltb 2 source then everything else some_events

-- the event that event_create() makes
unfoldable pub created : ℕ → ℤ → Event
unfolding default_type
created action seconds = record zero_event {
  action = action;
  type = default_type action;
  source = source_internal;
  localoffset = seconds;
}

module _ (m : Alloc) (tz : TimeZone) (cfg : EventCfg) where
  -- event_reschedule(): the time that it returns, -1 for an invalid argument, and g_heap. time() is
  -- read when the event is scheduled, and again behind that.
  unfoldable pub event_reschedule : ℤ → ℤ → Option Heap → Option Event → Run (ℤ × Option Heap)
  event_reschedule now later g none = ok (negsuc 0, g)
  event_reschedule now later g (some event) =
      let e = schedule_next_trigger tz cfg now event in
      let entered : Run (ℤ × Option Heap) = (do h ← insert m g e; ok (e.next_trigger, some h)) in
      let checked = if ltb_ℤ e.next_trigger later then exited else entered in
      if event.type == type_once then ok (negsuc 0, g) else checked

  -- event_create(): the time that it returns, or -1, and g_heap
  unfoldable pub event_create : ℤ → ℤ → Option Heap → ℤ → ℤ → Run (ℤ × Option Heap)
  event_create now later g (negsuc a) seconds = ok (negsuc 0, g)
  event_create now later g (pos action) seconds =
      let e = schedule_next_trigger tz cfg now (created action seconds) in
      let entered : Run (ℤ × Option Heap) = (do h ← insert m g e; ok (e.next_trigger, some h)) in
      let checked = if ltb_ℤ e.next_trigger later then exited else entered in
      if ltb action_maxvalue action || ltb action 1 || ltb_ℤ seconds (pos 1)
      then ok (negsuc 0, g)
      else checked
