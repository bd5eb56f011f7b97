-- ===== src/Daemon/InitializeLaws.antt =====
-- What daemon_initialize() makes of the schedule, and what its timers wait for.
use icmond.Prelude.{
  ◌+◌, ◌≡◌, refl, sym, Bool, true, false, if◌then◌else◌, Bool-cases, inl, inr, List, [], Option,
  none, some, ℤ, pos, negsuc, eqb_ℤ, ok, arith, eq_of_parts, Returns, returns, Returns-bind,
  Returns-map,
}
use icmond.EventTypes.{Event, source_parsed}
use icmond.EventHeap.{Alloc, Heap, heap_size}
use icmond.EventHeap.Insert.{WellFormed, count_in}
use icmond.EventHeap.Fetch.{IsFirst, FetchedOr, peek-FetchedOr}
use icmond.EventHeap.Drain.{tally}
use icmond.Event.Time.{is_zero}
use icmond.Event.Store.{event_commit_test_schedule}
use icmond.Event.Store.Laws.{
  is_kept, event_schedule_clear_correct, event_commit_test_schedule_correct,
}
use icmond.Daemon.Initialize.{
  Timers, Calls, or_exit, initialize_signal, initialize_interval, initialize_schedule,
  initialize_timeouts, daemon_initialize,
}

-- No call of the system fails.
pub record Works (s : Calls) : Type 0 where
  pub signal_works : eqb_ℤ s.signalfd (negsuc 0) ≡ false
  pub interval_works : eqb_ℤ s.interval_created (negsuc 0) ≡ false
  pub interval_is_set : s.interval_set ≡ true
  pub schedule_works : eqb_ℤ s.schedule_created (negsuc 0) ≡ false
  pub schedule_is_set : s.schedule_set ≡ true
  pub collecttmpfs_works : eqb_ℤ s.collecttmpfs_created (negsuc 0) ≡ false
  pub worker_works : eqb_ℤ s.worker_created (negsuc 0) ≡ false

-- The timer of a schedule: there is none for an empty one, and else it waits for the first event.
pub data IsTimed (s : Calls) (g : Option Heap) (t : Timers) : Type 0 where
  off : heap_size g ≡ 0 → t.schedule_fd ≡ pos 0 → IsTimed s g t
  on :
      (e : Event)
      → IsFirst e g
      → t.schedule_fd ≡ s.schedule_created
      → t.schedule_value ≡ e.next_trigger
      → IsTimed s g t

abbrev pub events_of : Option (List Event) → List Event
events_of none = []
events_of (some es) = es

-- The interval is the one of the configuration.
abbrev HasInterval : ℤ → Timers → Type 0
HasInterval interval t = t.interval_interval ≡ interval

is_zero_pos : (z : ℤ) → is_zero z ≡ true → z ≡ pos 0
is_zero_pos z h = eq_of_parts z (pos 0) (ground arith)

eqb_eq : (a b : ℤ) → eqb_ℤ a b ≡ true → a ≡ b
eqb_eq a b h = eq_of_parts a b (ground arith)

module _ (s : Calls) (w : Works s) where
  signal-Returns : (t : Timers) → Returns (λ t'. Unit {0}) (initialize_signal s t)
  unfolding initialize_signal
  signal-Returns t = elim (Bool-cases (is_zero t.signal_fd)) [
    | inl fresh ↦ rw (fresh, w.signal_works) (returns _ tt)
    | inr there ↦ rw there (returns t tt)
  ]

  interval-HasInterval :
      (interval : ℤ) (t : Timers)
      → Returns (HasInterval interval) (initialize_interval s interval t)
  unfolding initialize_interval
  interval-HasInterval interval t = elim (Bool-cases (eqb_ℤ interval t.interval_interval)) [
    | inr new ↦ rw (new, w.interval_works, w.interval_is_set) (returns _ refl)
    | inl same ↦ rw same (returns t (sym (eqb_eq interval t.interval_interval same)))
  ]

  schedule-IsTimed :
      (m : Alloc) (interval : ℤ) (g g' : Option Heap) (e : Option Event) (t : Timers)
      → FetchedOr m g (e, g')
      → HasInterval interval t
      → Returns (λ t'. HasInterval interval t' × IsTimed s g t') (initialize_schedule s e t)
  unfolding initialize_schedule
  schedule-IsTimed m interval g g' none t (empty, same) h =
      elim (Bool-cases (is_zero t.schedule_fd)) [
        | inl off_ ↦ rw off_ (returns t (h, off empty (is_zero_pos t.schedule_fd off_)))
        | inr on_ ↦ rw on_ (returns _ (h, off empty refl))
      ]
  schedule-IsTimed m interval g g' (some e) t f h = elim (Bool-cases (is_zero t.schedule_fd)) [
    | inl off_ ↦
        rw (off_, w.schedule_works, w.schedule_is_set) (returns _ (h, on e f.first refl refl))
    | inr on_ ↦
        rw (on_, w.schedule_works, w.schedule_is_set) (returns _ (h, on e f.first refl refl))
  ]

  or_exit-Returns :
      (b : Bool) (fd old : ℤ)
      → eqb_ℤ fd (negsuc 0) ≡ false
      → Returns (λ r. Unit {0}) (if b then or_exit fd else ok old)
  or_exit-Returns true fd old h = rw h (returns fd tt)
  or_exit-Returns false fd old h = returns old tt

  timeouts-IsTimed :
      (interval : ℤ) (g : Option Heap) (t : Timers)
      → HasInterval interval t × IsTimed s g t
      → Returns (λ t'. HasInterval interval t' × IsTimed s g t') (initialize_timeouts s t)
  unfolding initialize_timeouts
  timeouts-IsTimed interval g t (h, timed) =
      Returns-bind
        (or_exit-Returns (is_zero t.collecttmpfs_fd) s.collecttmpfs_created t.collecttmpfs_fd
          w.collecttmpfs_works)
        λ c _.
          Returns-bind
            (or_exit-Returns (is_zero t.worker_fd) s.worker_created t.worker_fd w.worker_works)
            λ k _. returns _ (h, kept timed)
    where
      kept :
          {c k : ℤ} → IsTimed s g t → IsTimed s g (record t { collecttmpfs_fd = c; worker_fd = k })
      kept (off empty fd) = off empty fd
      kept (on e first fd value) = on e first fd value

  committed :
      (m : Alloc) (g : Option Heap) (parsed : Option (List Event))
      → WellFormed m g
      → Returns
          (λ (g', parsed').
            WellFormed m g'
            × ((p : Event → Bool) → count_in p g' ≡ count_in p g + tally p (events_of parsed))
            × (parsed' ≡ none))
          (event_commit_test_schedule m g parsed)
  committed m g none v =
      unfold event_commit_test_schedule in returns (g, none) (v, λ p. omega arith, refl)
  committed m g (some es) v =
      Returns-map (event_commit_test_schedule_correct m g es v)
        λ (g', parsed') ((v', c), empty). (v', c, empty)

  -- daemon_initialize() on a well-formed schedule, where no call of the system fails, returns: the
  -- schedule has the parsed events in the place of those that were parsed before, beside the internal
  -- ones, no parsed events are left, and the interval timer has the interval of the configuration. The
  -- schedule timer, though, waits for the first event of the schedule as it was before the parsed events
  -- were entered, and there is none if that was empty.
  pub daemon_initialize_correct :
      (m : Alloc) (interval : ℤ) (t : Timers) (g : Option Heap) (g_parsed : Option (List Event))
      → WellFormed m g
      → Returns
          (λ (t', g', parsed).
            WellFormed m g'
            × ((p : Event → Bool)
                → count_in p g'
                  ≡ count_in (is_kept source_parsed p) g + tally p (events_of g_parsed))
            × (parsed ≡ none)
            × (t'.interval_interval ≡ interval)
            × IsTimed s g t')
          (daemon_initialize m s interval t g g_parsed)
  unfolding daemon_initialize
  daemon_initialize_correct m interval t g g_parsed v = Returns-bind (signal-Returns t) λ t1 _.
      Returns-bind (interval-HasInterval interval t1) λ t2 h.
        Returns-bind (peek-FetchedOr m g v) λ e (g', f).
          Returns-bind (schedule-IsTimed m interval g g' e t2 f h) λ t3 h3.
            Returns-bind (timeouts-IsTimed interval g t3 h3) λ t4 (h4, timed).
              Returns-bind (event_schedule_clear_correct m source_parsed g v) λ g1 (v1, c1).
                Returns-bind (committed m g1 g_parsed v1) λ (g2, parsed) (v2, c2, empty).
                  returns (t4, g2, parsed) (v2, λ p. omega (arith, c1 p, c2 p), empty, h4, timed)
