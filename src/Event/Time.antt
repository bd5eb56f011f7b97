-- ===== src/Event/Time.antt =====
-- event.c: __schedule_next_trigger() and the macros on seconds of event.h. The time zone is a parameter:
-- localtime_r(), and mktime() with the normal form that it gives its argument. time_t is an integer.
use icmond.Prelude.{
  ℕ, suc, ◌/◌, ◌%◌, Bool, not, ◌&&◌, ◌==◌, if◌then◌else◌, ℤ, pos, negsuc, sub_ℕ, ◌+ℤ◌, ◌-ℤ◌, ltb_ℤ,
  leb_ℤ, eqb_ℤ,
}
use icmond.EventTypes.{Event, seconds_per_day, seconds_per_hour, seconds_per_minute, type_daily}

-- C's `/` and `%` by a positive number, which round towards zero
unfoldable pub quot_ℤ : ℤ → ℕ → ℤ
quot_ℤ (pos n) d = pos (n / d)
quot_ℤ (negsuc n) d = sub_ℕ 0 (suc n / d)

unfoldable pub rem_ℤ : ℤ → ℕ → ℤ
rem_ℤ (pos n) d = pos (n % d)
rem_ℤ (negsuc n) d = sub_ℕ 0 (suc n % d)

-- GETDAYS, GETHOURS, GETMINUTES, GETSECONDS
unfoldable pub get_days : ℤ → ℤ
unfolding quot_ℤ
get_days s = quot_ℤ s seconds_per_day

unfoldable pub get_hours : ℤ → ℤ
unfolding quot_ℤ rem_ℤ
get_hours s = quot_ℤ (rem_ℤ s seconds_per_day) seconds_per_hour

unfoldable pub get_minutes : ℤ → ℤ
unfolding quot_ℤ rem_ℤ
get_minutes s = quot_ℤ (rem_ℤ s seconds_per_hour) seconds_per_minute

unfoldable pub get_seconds : ℤ → ℤ
unfolding rem_ℤ
get_seconds s = rem_ℤ s seconds_per_minute

-- struct tm, with the fields that the program reads or sets
pub record Tm : Type 0 where
  pub year : ℤ
  pub mon : ℤ
  pub mday : ℤ
  pub hour : ℤ
  pub min : ℤ
  pub sec : ℤ
  pub isdst : ℤ

pub record TimeZone : Type 0 where
  pub localtime : ℤ → Tm
  pub mktime : Tm → ℤ × Tm

-- The members of `cfg` that event.c reads.
pub record EventCfg : Type 0 where
  pub apply_dst : ℤ
  pub powercontrol : ℤ
  pub powerupdelay : ℤ

-- struct today_t
pub record Today : Type 0 where
  pub now : ℤ
  pub midnight : ℤ
  pub offset : ℤ
  pub lst : Tm

abbrev pub is_zero : ℤ → Bool
is_zero z = eqb_ℤ z (pos 0)

module _ (tz : TimeZone) (cfg : EventCfg) where
  -- __update_today(), at a time
  unfoldable pub update_today : ℤ → Today
  unfolding rem_ℤ
  update_today now =
      let offset = rem_ℤ now seconds_per_day in
      let lst = tz.localtime now in
      record {
        now = now;
        midnight = now -ℤ offset;
        offset = offset;
        lst =
            if ltb_ℤ (pos 0) lst.isdst && is_zero cfg.apply_dst
            then tz.localtime (now -ℤ pos seconds_per_hour)
            else lst;
      }

  -- the struct tm that a daily event of this offset has today
  unfoldable pub daily_tm : Today → ℤ → Tm
  unfolding get_hours get_minutes get_seconds
  daily_tm today localoffset = record {
    year = today.lst.year;
    mon = today.lst.mon;
    mday = today.lst.mday;
    hour = get_hours localoffset;
    min = get_minutes localoffset;
    sec = get_seconds localoffset;
    isdst = cfg.apply_dst;
  }

  -- A negative offset of a daily event becomes zero.
  unfoldable pub clamp_offset : ℤ → ℤ
  clamp_offset localoffset = if ltb_ℤ localoffset (pos 0) then pos 0 else localoffset

  -- the time of a daily event: today, or tomorrow if that has passed
  unfoldable pub daily_time : Today → ℤ → ℤ
  unfolding daily_tm
  daily_time today localoffset =
      let (eventtime, localtm) = tz.mktime (daily_tm today localoffset) in
      let (tomorrow, _) = tz.mktime (record localtm { mday = localtm.mday +ℤ pos 1 }) in
      if leb_ℤ eventtime today.now then tomorrow else eventtime

  -- __schedule_next_trigger(), at a time
  unfoldable pub schedule_next_trigger : ℤ → Event → Event
  unfolding update_today daily_time clamp_offset
  schedule_next_trigger now e =
      let today = update_today now in
      if e.type == type_daily
      then record e {
        localoffset = clamp_offset e.localoffset;
        next_trigger = daily_time today (clamp_offset e.localoffset);
      }
      else record e {
        next_trigger =
            if not (is_zero e.next_trigger)
            then e.next_trigger +ℤ e.localoffset
            else today.now +ℤ e.localoffset;
      }
