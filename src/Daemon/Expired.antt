-- ===== src/Daemon/Expired.antt =====
-- The branch of daemon_main() for the schedule timer as a whole.
use icmond.Prelude.{
  ℕ, ◌+◌, ◌*◌, ◌≤◌, ◌≡◌, refl, Bool, false, not, ◌&&◌, if◌then◌else◌, Option, none, some, ℤ, ◌≤ℤ◌,
  ◌<ℤ◌, Run, ok, exited, ◌>>=◌, arith, Bool-cases, inl, inr,
}
use icmond.EventTypes.{Event, action_importtmpfs}
use icmond.EventHeap.{Alloc, Heap, heap_size, peek}
use icmond.EventHeap.Insert.{WellFormed, count_in}
use icmond.EventHeap.Fetch.{IsFirst, FetchedOr, peek-FetchedOr}
use icmond.Event.Time.{TimeZone, EventCfg, schedule_next_trigger}
use icmond.Daemon.{Daemon}
use icmond.Daemon.Pump.{schedule_expired}
use icmond.Daemon.Due.{is_unsteady, is_due, is_past, count_in_size, IsClock}
use icmond.Daemon.PumpLaws.{Pumped, too_late, no_import, pumped, pump-Pumped}

-- The timer is set to the time of the first event of `g`, which is still to come, or there is none.
abbrev pub IsNext : ℤ → Option Heap → Option ℤ → Type 0
IsNext now g none = heap_size g ≡ 0
IsNext now g (some t) = (now <ℤ t) × ((e : Event) × (e.next_trigger ≡ t) × IsFirst e g)

module _ (m : Alloc) (tz : TimeZone) (cfg : EventCfg) (timeout now : ℤ) (clock : ℕ → ℤ) where
  -- How the branch ends on a schedule `g`.
  pub data Expired (starts : Bool) (g : Option Heap)
      : Run (ℕ × Daemon × Option Heap × Option ℤ) → Type 0 where
    passed :
        (k k' : ℕ) (e : Event)
        → e.next_trigger ≤ℤ now
        → (schedule_next_trigger tz cfg (clock k) e).next_trigger <ℤ clock k'
        → Expired starts g exited
    not_imported :
        (e : Event)
        → e.action ≡ action_importtmpfs
        → e.next_trigger ≤ℤ now
        → Expired starts g exited
    not_set : starts ≡ false → Expired starts g exited
    waits :
        {n : ℕ} {d : Daemon} {g' : Option Heap} {timer : Option ℤ}
        → WellFormed m g'
        → count_in is_unsteady g' ≡ 0
        → count_in (is_due now) g ≤ n
        → ((p : Event → Bool) → count_in (λ e. p e && not (is_due now e)) g ≤ count_in p g')
        → IsNext now g' timer
        → Expired starts g (ok (n, d, g', timer))

  abbrev set_timer :
      Bool → ℕ × Daemon × Option Heap → Option Event → Run (ℕ × Daemon × Option Heap × Option ℤ)
  set_timer starts (n, d, g) none = ok (n, d, g, none)
  set_timer starts (n, d, g) (some event) =
      if starts then ok (n, d, g, some event.next_trigger) else exited

  abbrev timer_of : Option Event → Option ℤ
  timer_of none = none
  timer_of (some e) = some e.next_trigger

  fetched-IsNext :
      (g g' : Option Heap) (e : Option Event)
      → FetchedOr m g (e, g')
      → count_in (is_due now) g ≡ 0
      → IsNext now g (timer_of e)
  fetched-IsNext g g' none (empty, same) none_due = empty
  fetched-IsNext g g' (some e) f none_due =
      let ahead : is_due now e ≡ false = ground (arith, f.events (is_due now)) in
      (ground arith, (e, refl, f.first))

  IsNext-timer :
      (g : Option Heap)
      → WellFormed m g
      → count_in (is_due now) g ≡ 0
      → (next : Option Event) × (peek m g ≡ ok next) × IsNext now g (timer_of next)
  IsNext-timer g v none_due =
      let (e, peeked, (g', f)) = peek-FetchedOr m g v in
      (e, peeked, fetched-IsNext g g' e f none_due)

  pub schedule_expired-Expired :
      (starts : Bool) (d : Daemon) (g : Option Heap)
      → IsClock m tz cfg timeout now clock
      → WellFormed m g
      → count_in is_unsteady g ≡ 0
      → Expired starts g
          (schedule_expired m tz cfg timeout now clock (2 * heap_size g + 1) starts d g)
  unfolding schedule_expired
  schedule_expired-Expired starts d g c v s = ends _ (
      pump-Pumped m tz cfg timeout now clock c (2 * heap_size g + 1) 0 d g v s
        (omega (arith, count_in_size (is_due now) g, count_in_size (is_past now) g)))
    where
      ends :
          (r : Run (ℕ × Daemon × Option Heap))
          → Pumped m tz cfg timeout now clock c g r
          → Expired starts g (r >>= λ (n, d', g'). peek m g' >>= set_timer starts (n, d', g'))
      ends r (too_late k k' e due p) = passed k k' e due p
      ends r (no_import e a due) = not_imported e a due
      ends r (pumped {n} {d = d'} {g'} v' idle s' executed kept) =
          let (next, run, is_next) = IsNext-timer g' v' idle in
          rw run (timed n d' g' next v' s' executed kept is_next)
        where
          timed :
              (n : ℕ) (d' : Daemon) (g' : Option Heap) (next : Option Event)
              → WellFormed m g'
              → count_in is_unsteady g' ≡ 0
              → count_in (is_due now) g ≤ n
              → ((p : Event → Bool) → count_in (λ e. p e && not (is_due now e)) g ≤ count_in p g')
              → IsNext now g' (timer_of next)
              → Expired starts g (set_timer starts (n, d', g') next)
          timed n d' g' none v' s' executed kept is_next = waits v' s' executed kept is_next
          timed n d' g' (some e) v' s' executed kept is_next = elim (Bool-cases starts) [
            | inl set ↦ rw set (waits v' s' executed kept is_next)
            | inr fails ↦ rw fails (not_set refl)
          ]
