-- ===== src/Daemon/PumpLaws.antt =====
-- What the loop over the triggered events does to the schedule, and why it ends.
use icmond.Prelude.{
  ℕ, zero, suc, ◌+◌, ◌*◌, ◌≤◌, ◌<◌, ◌≡◌, ◌≢◌, Bool, true, false, not, ◌&&◌, ◌==◌, if◌then◌else◌,
  Option, none, some, ℤ, ◌≤ℤ◌, ◌<ℤ◌, Run, ok, exited, ◌>>=◌, arith, Bool-cases, inl, inr,
}
use icmond.EventTypes.{Event, type_once, action_importtmpfs}
use icmond.EventHeap.{Alloc, Heap, fetch_triggered}
use icmond.EventHeap.Drain.{none_due}
use icmond.EventHeap.Insert.{WellFormed, count_in, Inserted, one_if}
use icmond.EventHeap.Fetch.{Fetched, TriggeredOr, fetch_triggered_correct}
use icmond.Event.Time.{TimeZone, EventCfg, schedule_next_trigger}
use icmond.Event.Store.{event_reschedule}
use icmond.Event.Store.Laws.{EntersOne, late, entered, event_reschedule_correct}
use icmond.Daemon.{Daemon}
use icmond.Daemon.Execute.{Ran, died, unchanged, added, timeout_event, event_execute-Ran}
use icmond.Daemon.Pump.{pump}
use icmond.Daemon.Due.{
  is_unsteady, is_due, is_past, count_in_both, IsClock, schedule-IsLater, timeout-IsLater,
}

-- A bound on the rounds that are left.
abbrev pub rank : ℤ → Option Heap → ℕ
rank now g = count_in (is_due now) g + count_in (is_past now) g

module _ (m : Alloc) (tz : TimeZone) (cfg : EventCfg) (timeout now : ℤ) (clock : ℕ → ℤ) where
  module _ (c : IsClock m tz cfg timeout now clock) where
    -- `g'` is a well-formed schedule of steady events that has those of `g`, and at most `x` rounds more.
    record Stage (x : ℕ) (g g' : Option Heap) : Type 0 where
      valid : WellFormed m g'
      keeps : (p : Event → Bool) → count_in p g ≤ count_in p g'
      steady : count_in is_unsteady g' ≡ 0
      bounded : rank now g' ≤ rank now g + x

    Stage-refl : (g : Option Heap) → WellFormed m g → count_in is_unsteady g ≡ 0 → Stage 0 g g
    Stage-refl g v s = record {
      valid = v;
      keeps = λ p. omega arith;
      steady = s;
      bounded = omega arith;
    }

    Stage-trans :
        (x y : ℕ) (g g' g'' : Option Heap) → Stage x g g' → Stage y g' g'' → Stage (x + y) g g''
    Stage-trans x y g g' g'' a b = record {
      valid = b.valid;
      keeps = λ p. omega (arith, a.keeps p, b.keeps p);
      steady = b.steady;
      bounded = omega (arith, a.bounded, b.bounded);
    }

    -- An event enters that is due at most at `now` itself, and that only in the place of an earlier one.
    entering :
        (x : ℕ) (g : Option Heap) (e : Event) (h : Heap)
        → Inserted m g e h
        → count_in is_unsteady g ≡ 0
        → is_unsteady e ≡ false
        → one_if (is_due now e) + one_if (is_past now e) ≤ x
        → Stage x g (some h)
    entering x g e h i s steady b = record {
      valid = i.valid;
      keeps = λ p. omega (arith, i.events p);
      steady = ground (arith, i.events is_unsteady);
      bounded = omega (arith, i.events (is_due now), i.events (is_past now));
    }

    timeout_enters :
        (k : ℕ) (g : Option Heap) (h : Heap)
        → Inserted m g (timeout_event m tz cfg timeout (clock k) (clock (k + 1))) h
        → count_in is_unsteady g ≡ 0
        → Stage 0 g (some h)
    timeout_enters k g h i s =
        let (ahead, steady) = timeout-IsLater m tz cfg timeout now clock c k in
        let t = timeout_event m tz cfg timeout (clock k) (clock (k + 1)) in
        let due : is_due now t ≡ false = ground arith in
        let past : is_past now t ≡ false = ground arith in
        entering 0 g t h i s steady (rw (due, past) (omega arith))

    rescheduled_enters :
        (k k' : ℕ) (e : Event) (g : Option Heap) (h : Heap)
        → Inserted m g (schedule_next_trigger tz cfg (clock k) e) h
        → clock k' ≤ℤ (schedule_next_trigger tz cfg (clock k) e).next_trigger
        → count_in is_unsteady g ≡ 0
        → e.type ≢ type_once
        → is_unsteady e ≡ false
        → Stage (one_if (is_past now e)) g (some h)
    rescheduled_enters k k' e g h i reached s other steady =
        let e' = schedule_next_trigger tz cfg (clock k) e in
        let (ahead, steady') = schedule-IsLater m tz cfg timeout now clock c k e other steady in
        let first = c.since k' in
        let past : is_past now e' ≡ false = ground arith in
        let due : one_if (is_due now e') ≤ one_if (is_past now e) = elim ahead [
          | inl behind ↦ ground arith
          | inr behind ↦ ground arith
        ] in
        entering _ g e' h i s steady' (rw past (omega (arith, due)))

    -- How the loop on `g` ends. The process exits if an event that was due is scheduled for a time that
    -- has passed, or if an import of the tmpfs cannot be scheduled. If not, the schedule is well formed,
    -- none of its events is due and all are steady; each event that was due has been executed, and each
    -- that was not is still there.
    pub data Pumped (g : Option Heap) : Run (ℕ × Daemon × Option Heap) → Type 0 where
      too_late :
          (k k' : ℕ) (e : Event)
          → e.next_trigger ≤ℤ now
          → (schedule_next_trigger tz cfg (clock k) e).next_trigger <ℤ clock k'
          → Pumped g exited
      no_import :
          (e : Event) → e.action ≡ action_importtmpfs → e.next_trigger ≤ℤ now → Pumped g exited
      pumped :
          {n : ℕ} {d : Daemon} {g' : Option Heap}
          → WellFormed m g'
          → count_in (is_due now) g' ≡ 0
          → count_in is_unsteady g' ≡ 0
          → count_in (is_due now) g ≤ n
          → ((p : Event → Bool) → count_in (λ e. p e && not (is_due now e)) g ≤ count_in p g')
          → Pumped g (ok (n, d, g'))

    abbrev counted : Event → ℕ × Daemon × Option Heap → Run (ℕ × Daemon × Option Heap)
    counted e (n, d, g) = ok (suc n, d, g)

    -- One round in front of the others.
    round-Pumped :
        (x : ℕ) (g g1 g3 : Option Heap) (e : Event) (r : Run (ℕ × Daemon × Option Heap))
        → e.next_trigger ≤ℤ now
        → Fetched m g e g1
        → Stage x g1 g3
        → Pumped g3 r
        → Pumped g (r >>= λ (n, d, g4). ok (suc n, d, g4))
    round-Pumped x g g1 g3 e r due f st (too_late k k' e' a b) = too_late k k' e' a b
    round-Pumped x g g1 g3 e r due f st (no_import e' a b) = no_import e' a b
    round-Pumped x g g1 g3 e r due f st (pumped v idle s n others) =
        pumped v idle s (omega (arith, n, f.events (is_due now), st.keeps (is_due now), one_due))
          λ p.
            let q : Event → Bool = λ e. p e && not (is_due now e) in
            let no : one_if (q e) ≡ 0 = ground (arith, is_later) in
            omega (arith, others p, f.events q, st.keeps q, no)
      where
        is_later : is_due now e ≡ true
        is_later = ground arith

        one_due : one_if (is_due now e) ≤ 1
        one_due = ground arith

    Fetched-rank :
        (x : ℕ) (g g1 g3 : Option Heap) (e : Event) (fuel : ℕ)
        → e.next_trigger ≤ℤ now
        → Fetched m g e g1
        → Stage x g1 g3
        → x ≤ one_if (is_past now e)
        → rank now g < suc fuel
        → rank now g3 < fuel
    Fetched-rank x g g1 g3 e fuel due f st small bound =
        let is_one : one_if (is_due now e) ≡ 1 = ground arith in
        omega (arith, f.events (is_due now), f.events (is_past now), st.bounded, is_one)

    Fetched-steady :
        (g g1 : Option Heap) (e : Event)
        → Fetched m g e g1
        → count_in is_unsteady g ≡ 0
        → (count_in is_unsteady g1 ≡ 0) × (is_unsteady e ≡ false)
    Fetched-steady g g1 e f s = ground (arith, f.events is_unsteady)

    module _ (k : ℕ) (e : Event) (d : Daemon) (g1 : Option Heap) (due : e.next_trigger ≤ℤ now) where
      -- What a round does behind the execution of the event.
      abbrev rescheduled : Option Heap → Run (ℤ × Option Heap)
      rescheduled g =
          if e.type == type_once
          then ok (e.next_trigger, g)
          else event_reschedule m tz cfg (clock (4 * k + 2)) (clock (4 * k + 3)) g (some e)

      -- The rest of the loop, from a schedule on.
      abbrev Rest : (Daemon → Option Heap → Run (ℕ × Daemon × Option Heap)) → Type 0
      Rest rest =
          (d' : Daemon) (g3 : Option Heap) (x : ℕ)
          → x ≤ one_if (is_past now e)
          → Stage x g1 g3
          → Pumped g3 (rest d' g3)

      module _ (rest : Daemon → Option Heap → Run (ℕ × Daemon × Option Heap)) (goes_on : Rest rest)
          (g : Option Heap) (f : Fetched m g e g1) where
        reschedule-Pumped :
            (d2 : Daemon) (g2 : Option Heap)
            → Stage 0 g1 g2
            → is_unsteady e ≡ false
            → Pumped g
                (rescheduled g2 >>= λ (time, g3). rest d2 g3 >>= λ (n, d4, g4). ok (suc n, d4, g4))
        reschedule-Pumped d2 g2 st steady = elim (Bool-cases (e.type == type_once)) [
          | inl once ↦
              rw once
                (round-Pumped 0 g g1 g2 e (rest d2 g2) due f st (goes_on d2 g2 0 (omega arith) st))
          | inr again ↦
              let other : e.type ≢ type_once = ground arith in
              rw again (
                ends other _ (
                  event_reschedule_correct m tz cfg (clock (4 * k + 2)) (clock (4 * k + 3)) g2 e
                    other st.valid))
        ]
          where
            ends :
                e.type ≢ type_once
                → (r : Run (ℤ × Option Heap))
                → EntersOne m g2
                    (schedule_next_trigger tz cfg (clock (4 * k + 2)) e)
                    (clock (4 * k + 3))
                    r
                → Pumped g (r >>= λ (time, g3). rest d2 g3 >>= λ (n, d4, g4). ok (suc n, d4, g4))
            ends other r (late p) = too_late (4 * k + 2) (4 * k + 3) e due p
            ends other r (entered {h} p i) =
                let st' =
                  rescheduled_enters (4 * k + 2) (4 * k + 3) e g2 h i p st.steady other steady in
                let both = Stage-trans 0 (one_if (is_past now e)) g1 g2 (some h) st st' in
                round-Pumped _ g g1 (some h) e (rest d2 (some h)) due f both
                  (goes_on d2 (some h) _ (omega arith) both)

        execute-Pumped :
            count_in is_unsteady g1 ≡ 0
            → is_unsteady e ≡ false
            → (r : Run (ℕ × Daemon × Option Heap))
            → Ran m g1 e (timeout_event m tz cfg timeout (clock (4 * k)) (clock (4 * k + 1))) r
            → Pumped g (
                r >>= λ (rc, d2, g2).
                rescheduled g2 >>= λ (time, g3). rest d2 g3 >>= λ (n, d4, g4). ok (suc n, d4, g4))
        execute-Pumped s steady r (died a) = no_import e a due
        execute-Pumped s steady r (unchanged {rc} {d = d2}) =
            reschedule-Pumped d2 g1 (Stage-refl g1 f.valid s) steady
        execute-Pumped s steady r (added {rc} {d = d2} {h} i) =
            reschedule-Pumped d2 (some h) (timeout_enters (4 * k) g1 h i s) steady

    pump_step :
        (fuel k : ℕ) (d : Daemon) (g : Option Heap) (e : Option Event) (g1 : Option Heap)
        → WellFormed m g
        → count_in is_unsteady g ≡ 0
        → rank now g < suc fuel
        → fetch_triggered m g now ≡ ok (e, g1)
        → TriggeredOr m g now (e, g1)
        → ((d' : Daemon) (g' : Option Heap)
            → WellFormed m g'
            → count_in is_unsteady g' ≡ 0
            → rank now g' < fuel
            → Pumped g' (pump m tz cfg timeout now clock fuel (suc k) d' g'))
        → Pumped g (pump m tz cfg timeout now clock (suc fuel) k d g)
    unfolding pump
    pump_step fuel k d g none g1 v s b run (idle, same) rest =
        let empty = none_due m g now v idle in
        rw (run, same)
          (pumped v empty s (omega (arith, empty))
            (λ p. count_in_both p (λ e. not (is_due now e)) g))
    pump_step fuel k d g (some e) g1 v s b run (due, f) rest =
        let (s1, steady) = Fetched-steady g g1 e f s in
        rw run (
          execute-Pumped k e d g1 due (pump m tz cfg timeout now clock fuel (suc k))
            (λ d' g3 x small st.
              rest d' g3 st.valid st.steady (Fetched-rank x g g1 g3 e fuel due f st small b))
            g f s1 steady _
            (event_execute-Ran m tz cfg timeout (clock (4 * k)) (clock (4 * k + 1)) e d g1
              c.timeout_pos f.valid))

    pub pump-Pumped :
        (fuel k : ℕ) (d : Daemon) (g : Option Heap)
        → WellFormed m g
        → count_in is_unsteady g ≡ 0
        → rank now g < fuel
        → Pumped g (pump m tz cfg timeout now clock fuel k d g)
    pump-Pumped zero k d g v s b = absurd (omega arith)
    pump-Pumped (suc fuel) k d g v s b =
        let ((e, g1), run, t) = fetch_triggered_correct m g now v in
        pump_step fuel k d g e g1 v s b run t
          (λ d' g' v' s' b'. pump-Pumped fuel (suc k) d' g' v' s' b')
