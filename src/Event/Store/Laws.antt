-- ===== src/Event/Store/Laws.antt =====
-- What committing, clearing, creating and rescheduling make of the production schedule.
use icmond.Prelude.{
  ℕ, zero, suc, ◌+◌, ◌<◌, ◌≡◌, refl, sym, Bool, true, false, not, ◌&&◌, ◌||◌, ltb, leb, ◌==◌,
  if◌then◌else◌, List, [], ◌∷◌, Option, none, some, arith, ℤ, pos, negsuc, ltb_ℤ, ◌≤ℤ◌, ◌<ℤ◌, Run,
  ok, exited, ◌>>=◌, Returns, returns, Returns-bind, Returns-map, Bool-cases, inl, inr, ◌≢◌,
}
use icmond.EventTypes.{Event, type_once, action_maxvalue}
use icmond.EventHeap.{Alloc, Heap, insert, heap_size, fetch, destroy}
use icmond.EventHeap.Insert.{WellFormed, count_in, Inserted, insert_correct}
use icmond.EventHeap.Fetch.{FetchedOr, fetch_correct}
use icmond.EventHeap.Drain.{tally, destroy_correct, count_in_empty}
use icmond.Event.Time.{TimeZone, EventCfg, schedule_next_trigger}
use icmond.Event.Store.{
  insert_all, event_commit_test_schedule, has_source, sift_events, event_schedule_clear,
  event_reschedule, created, event_create,
}

-- `g'` is a well-formed schedule of the events of `g` and of a list.
abbrev pub Entered : Alloc → Option Heap → List Event → Option Heap → Type 0
Entered m g es g' =
    WellFormed m g' × ((p : Event → Bool) → count_in p g' ≡ count_in p g + tally p es)

pub insert_all_correct :
    (m : Alloc) (es : List Event) (g : Option Heap)
    → WellFormed m g
    → Returns (Entered m g es) (insert_all m g es)
unfolding insert_all
insert_all_correct m [] g v = returns g (v, λ p. omega arith)
insert_all_correct m (e ∷ es) g v = Returns-bind (insert_correct m g e v) λ h i.
    Returns-map (insert_all_correct m es (some h) i.valid)
      λ g' (v', c). (v', λ p. omega (arith, c p, i.events p))

-- event_commit_test_schedule() always returns, and enters each of the parsed events into the schedule
-- once; it leaves the other events of the schedule, and no parsed events.
pub event_commit_test_schedule_correct :
    (m : Alloc) (g : Option Heap) (es : List Event)
    → WellFormed m g
    → Returns
        (λ (g', parsed). Entered m g es g' × (parsed ≡ none))
        (event_commit_test_schedule m g (some es))
unfolding event_commit_test_schedule
event_commit_test_schedule_correct m g es v =
    Returns-bind (insert_all_correct m es g v) λ g' e. returns (g', none) (e, refl)

-- An event that passes `p` and is not of a source.
abbrev pub is_kept : ℕ → (Event → Bool) → Event → Bool
is_kept source p e = p e && not (has_source source e)

abbrev Sifted : Alloc → ℕ → Option Heap → List Event × Option Heap → Type 0
Sifted m source g (saved, g') =
    WellFormed m g'
    × (heap_size g' ≡ 0)
    × ((p : Event → Bool) → tally p saved ≡ count_in (is_kept source p) g)

sift_step :
    (m : Alloc) (k source : ℕ) (g : Option Heap) (e : Option Event) (g' : Option Heap)
    → WellFormed m g
    → heap_size g < suc k
    → fetch m g ≡ ok (e, g')
    → FetchedOr m g (e, g')
    → (WellFormed m g'
        → heap_size g' < k
        → Returns (Sifted m source g') (sift_events m k source g'))
    → Returns (Sifted m source g) (sift_events m (suc k) source g)
unfolding sift_events
sift_step m k source g none g' v f run (empty, same) rest = rw run (
    returns ([], g')
      (rw same v, rw same empty, λ p. sym (count_in_empty (is_kept source p) g empty)))
sift_step m k source g (some e) g' v f run fetched rest =
    let ((saved, g''), again, (v', none_left, kept)) =
      rest fetched.valid (omega (arith, fetched.size_is)) in
    rw (run, again)
      (returns (if has_source source e then saved else e ∷ saved, g'')
        (v', none_left, λ p. ground (arith, kept p, fetched.events (is_kept source p))))

sift_events_correct :
    (m : Alloc) (k source : ℕ) (g : Option Heap)
    → WellFormed m g
    → heap_size g < k
    → Returns (Sifted m source g) (sift_events m k source g)
sift_events_correct m zero source g v f = absurd (omega arith)
sift_events_correct m (suc k) source g v f =
    let ((e, g'), run, fetched) = fetch_correct m g v in
    sift_step m k source g e g' v f run fetched (λ v' f'. sift_events_correct m k source g' v' f')

-- What is left of `g` when the events of a source are cleared: nothing for a source above two.
abbrev pub Cleared : Alloc → ℕ → Option Heap → Option Heap → Type 0
Cleared m source g g' =
    WellFormed m g'
    × ((p : Event → Bool)
        → count_in p g' ≡ (if ltb 2 source then 0 else count_in (is_kept source p) g))

clear_all :
    (m : Alloc) (g : Option Heap)
    → WellFormed m g
    → Returns
        (λ g'. WellFormed m g' × ((p : Event → Bool) → count_in p g' ≡ 0))
        (destroy m g >>= λ (_, g'). ok g')
clear_all m g v =
    Returns-bind (destroy_correct m g v)
      λ (freed, g') (s, c, empty). returns g' (rw empty tt, rw empty (λ p. refl))

-- event_schedule_clear() always returns. For a source of at most two it removes from the schedule
-- exactly the events whose source has a bit in common with it, and for a greater one all events.
pub event_schedule_clear_correct :
    (m : Alloc) (source : ℕ) (g : Option Heap)
    → WellFormed m g
    → Returns (Cleared m source g) (event_schedule_clear m source g)
unfolding event_schedule_clear
event_schedule_clear_correct m source g v = elim (Bool-cases (ltb 2 source)) [
  | inl both ↦ rw both (clear_all m g v)
  | inr one ↦ rw one (
      Returns-bind (sift_events_correct m (heap_size g + 1) source g v (omega arith))
        λ (saved, g') (v', empty, kept).
          Returns-map (insert_all_correct m saved g' v')
            λ g'' (w, c). (w, λ p. omega (arith, c p, kept p, count_in_empty p g' empty)))
]

-- How entering an event into `g` ends: the process exits if the event is due before `later`; if it is
-- not, the time of the event is returned, and the event is in the schedule.
pub data EntersOne (m : Alloc) (g : Option Heap) (e : Event) (later : ℤ)
    : Run (ℤ × Option Heap) → Type 0 where
  late : e.next_trigger <ℤ later → EntersOne m g e later exited
  entered :
      {h : Heap}
      → later ≤ℤ e.next_trigger
      → Inserted m g e h
      → EntersOne m g e later (ok (e.next_trigger, some h))

enters :
    (m : Alloc) (g : Option Heap) (e : Event) (later : ℤ)
    → WellFormed m g
    → EntersOne m g e later (
        if ltb_ℤ e.next_trigger later
        then exited
        else (insert m g e >>= λ h. ok (e.next_trigger, some h)))
enters m g e later v = elim (Bool-cases (ltb_ℤ e.next_trigger later)) [
  | inl past ↦ rw past (late (ground arith))
  | inr future ↦
      let (h, run, i) = insert_correct m g e v in rw (future, run) (entered (ground arith) i)
]

-- The arguments that event_create() accepts.
abbrev pub is_valid_request : ℕ → ℤ → Bool
is_valid_request action seconds =
    leb 1 action && leb action action_maxvalue && ltb_ℤ (pos 0) seconds

module _ (m : Alloc) (tz : TimeZone) (cfg : EventCfg) (now later : ℤ) (g : Option Heap) where
  module _ (action : ℕ) (seconds : ℤ) where
    -- event_create() rejects an action that is not 1 to 7 and a time below one second: it returns -1
    -- and leaves the schedule as it is.
    pub event_create-invalid :
        is_valid_request action seconds ≡ false
        → event_create m tz cfg now later g (pos action) seconds ≡ ok (negsuc 0, g)
    unfolding event_create
    event_create-invalid bad =
        let e : (ltb action_maxvalue action || ltb action 1 || ltb_ℤ seconds (pos 1)) ≡ true =
          ground arith in
        rw e

    -- event_create() for an action from 1 to 7 and a time of at least one second makes an internal event
    -- of the type of its action and schedules it. The process exits if the time found for it has passed;
    -- if not, the event is in the well-formed schedule beside those that were there, and its time is
    -- returned.
    pub event_create_correct :
        is_valid_request action seconds ≡ true
        → WellFormed m g
        → EntersOne m g
            (schedule_next_trigger tz cfg now (created action seconds))
            later
            (event_create m tz cfg now later g (pos action) seconds)
    unfolding event_create
    event_create_correct good v =
        let e : (ltb action_maxvalue action || ltb action 1 || ltb_ℤ seconds (pos 1)) ≡ false =
          ground arith in
        rw e (enters m g (schedule_next_trigger tz cfg now (created action seconds)) later v)

  module _ (event : Event) where
    -- event_reschedule() on an event of another type than once schedules it anew. The process exits if the new
    -- time has passed; if not, the event is in the well-formed schedule with that time beside those that
    -- were there, and the time is returned.
    pub event_reschedule_correct :
        event.type ≢ type_once
        → WellFormed m g
        → EntersOne m g
            (schedule_next_trigger tz cfg now event)
            later
            (event_reschedule m tz cfg now later g (some event))
    unfolding event_reschedule
    event_reschedule_correct other v =
        let e : (event.type == type_once) ≡ false = ground arith in
        rw e (enters m g (schedule_next_trigger tz cfg now event) later v)
