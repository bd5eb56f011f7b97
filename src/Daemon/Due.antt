-- ===== src/Daemon/Due.antt =====
-- Which events are due, and that an event is scheduled behind the present.
use icmond.Prelude.{
  ℕ, zero, suc, ◌+◌, ◌≤◌, ◌≡◌, ◌≢◌, refl, Bool, false, not, ◌&&◌, ◌||◌, ◌==◌, if◌then◌else◌, Option,
  none, some, ℤ, pos, ◌≤ℤ◌, ◌<ℤ◌, ltb_ℤ, leb_ℤ, ◌+ℤ◌, int_laws, arith, Bool-cases, inl, inr, ◌⊎◌,
}
use icmond.EventTypes.{Event, type_once, type_daily}
use icmond.EventHeap.{Alloc, Slots, Heap, heap_size}
use icmond.EventHeap.Order.{count}
use icmond.EventHeap.Insert.{count_in}
use icmond.Event.Time.{
  TimeZone, EventCfg, Today, update_today, daily_tm, daily_time, clamp_offset,
  schedule_next_trigger, is_zero,
}
use icmond.Event.Store.{created}
use icmond.Daemon.Execute.{timeout_event}

-- A daily event, one that triggers once, or one with an interval of at least a second.
abbrev pub is_steady : Event → Bool
is_steady e = e.type == type_daily || e.type == type_once || ltb_ℤ (pos 0) e.localoffset

abbrev pub is_unsteady : Event → Bool
is_unsteady e = not (is_steady e)

abbrev pub is_due : ℤ → Event → Bool
is_due now e = leb_ℤ e.next_trigger now

abbrev pub is_past : ℤ → Event → Bool
is_past now e = ltb_ℤ e.next_trigger now

count_both : (p q : Event → Bool) (s : Slots) (n : ℕ) → count (λ e. p e && q e) s n ≤ count p s n
unfolding count
count_both p q s zero = omega arith
count_both p q s (suc n) = ground (arith, count_both p q s n)

pub count_in_both :
    (p q : Event → Bool) (g : Option Heap) → count_in (λ e. p e && q e) g ≤ count_in p g
count_in_both p q none = omega arith
count_in_both p q (some h) = count_both p q h.slots h.size

count_size : (p : Event → Bool) (s : Slots) (n : ℕ) → count p s n ≤ n
unfolding count
count_size p s zero = omega arith
count_size p s (suc n) = ground (arith, count_size p s n)

pub count_in_size : (p : Event → Bool) (g : Option Heap) → count_in p g ≤ heap_size g
unfolding heap_size
count_in_size p none = omega arith
count_in_size p (some h) = count_size p h.slots h.size

-- The time of a daily event on the day after the one of `today`.
abbrev pub tomorrow : TimeZone → EventCfg → Today → ℤ → ℤ
tomorrow tz cfg today localoffset =
    let localtm = (tz.mktime (daily_tm tz cfg today localoffset)).1 in
    (tz.mktime (record localtm { mday = localtm.mday +ℤ pos 1 })).0

module _ (m : Alloc) (tz : TimeZone) (cfg : EventCfg) (timeout now : ℤ) (clock : ℕ → ℤ) where
  -- time() does not go back behind `now`, mktime() gives for each time of day on the day behind today a time
  -- that has not come yet, and the timeout is at least a second.
  pub record IsClock : Type 0 where
    pub since : (k : ℕ) → now ≤ℤ clock k
    pub next_day :
        (k : ℕ) (localoffset : ℤ)
        → pos 0 ≤ℤ localoffset
        → clock k <ℤ tomorrow tz cfg (update_today tz cfg (clock k)) localoffset
    pub timeout_pos : pos 0 <ℤ timeout

  module _ (c : IsClock) where
    daily_later :
        (k : ℕ) (localoffset : ℤ)
        → pos 0 ≤ℤ localoffset
        → now <ℤ daily_time tz cfg (update_today tz cfg (clock k)) localoffset
    unfolding daily_time update_today
    daily_later k localoffset since_midnight =
        let t = update_today tz cfg (clock k) in
        let first = c.since k in
        let next = c.next_day k localoffset since_midnight in
        elim (Bool-cases (leb_ℤ (tz.mktime (daily_tm tz cfg t localoffset)).0 t.now)) [
          | inl expired ↦ rw expired (omega arith)
          | inr ahead ↦ rw ahead (ground arith)
        ]

    clamp_offset_lem : (localoffset : ℤ) → pos 0 ≤ℤ clamp_offset tz cfg localoffset
    unfolding clamp_offset
    clamp_offset_lem localoffset = ground arith

    -- A steady event is scheduled behind `now`, or at least behind its last time, and stays steady.
    abbrev pub IsLater : Event → Event → Type 0
    IsLater e e' =
        ((now <ℤ e'.next_trigger) ⊎ (e.next_trigger <ℤ e'.next_trigger)) × (is_unsteady e' ≡ false)

    abbrev next_interval : ℕ → Event → ℤ
    next_interval k e =
        if not (is_zero e.next_trigger)
        then e.next_trigger +ℤ e.localoffset
        else clock k +ℤ e.localoffset

    next_interval_later :
        (k : ℕ) (e : Event)
        → pos 0 <ℤ e.localoffset
        → (now <ℤ next_interval k e) ⊎ (e.next_trigger <ℤ next_interval k e)
    next_interval_later k e positive =
        let first = c.since k in
        elim (Bool-cases (is_zero e.next_trigger)) [
          | inl zero_ ↦ rw zero_ (inl (omega (int_laws)))
          | inr set ↦ rw set (inr (omega (int_laws)))
        ]

    pub schedule-IsLater :
        (k : ℕ) (e : Event)
        → e.type ≢ type_once
        → is_unsteady e ≡ false
        → IsLater e (schedule_next_trigger tz cfg (clock k) e)
    unfolding schedule_next_trigger update_today
    schedule-IsLater k e other steady = elim (Bool-cases (e.type == type_daily)) [
      | inl daily ↦ rw daily (
        inl (daily_later k (clamp_offset tz cfg e.localoffset) (clamp_offset_lem e.localoffset)),
        rw daily refl,
      )
      | inr interval ↦
          let positive : pos 0 <ℤ e.localoffset = ground arith in
          rw interval (next_interval_later k e positive, steady)
    ]

    pub timeout-IsLater :
        (k : ℕ)
        → (now <ℤ (timeout_event m tz cfg timeout (clock k) (clock (k + 1))).next_trigger)
          × (is_unsteady (timeout_event m tz cfg timeout (clock k) (clock (k + 1))) ≡ false)
    unfolding schedule_next_trigger update_today created
    timeout-IsLater k =
        let first = c.since k in let positive = c.timeout_pos in (omega int_laws, refl)
