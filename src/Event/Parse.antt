-- ===== src/Event/Parse.antt =====
-- event.c: event_test_parse(), which reads the event strings of the configuration. An error message is
-- the kind of the error here; `errno` is a number, zero for none. The array is the list of its strings
-- after arrcollapse(), and the clock is read once.
use icmond.Prelude.{
  ℕ, ◌+◌, ◌*◌, not, ◌&&◌, ◌||◌, ltb, ◌==◌, if◌then◌else◌, List, [], ◌∷◌, ◌++◌, Option, none, some,
  length, ℤ, pos, negsuc, pos_part, ◌+ℤ◌, ◌-ℤ◌, ltb_ℤ,
}
use icmond.EventTypes.{
  Bytes, Event, EventAction, zero_event, event_action, type_daily, type_interval, type_once,
  source_parsed, action_resume, action_poweron, seconds_per_day, seconds_per_hour,
  seconds_per_minute,
}
use icmond.Text.{str_case_eq, is_nonempty}
use icmond.Text.Trim.{trim_front}
use icmond.Arrays.Collapse.{nonempty_strings}
use icmond.Event.Time.{TimeZone, EventCfg, schedule_next_trigger, is_zero}
use icmond.Event.Strtol.{Strtol, strtol, wrap32}

pub data ParseError : Type 0 where
  empty_string hours_conversion no_hours hours_range hours_negative bad_separator : ParseError
  minutes_conversion no_minutes minutes_range missing_code unknown_action negative_offset :
      ParseError

abbrev pub einval : ℕ
einval = 22

abbrev pub erange : ℕ
erange = 34

abbrev pub enodata : ℕ
enodata = 61

-- the `for` of __actionstring2code(), from entry i on
unfoldable pub find_action : Bytes → ℕ → List EventAction → ℕ
find_action actionstring i [] = 0
find_action actionstring i (a ∷ more) =
    if str_case_eq actionstring a.name then i else find_action actionstring (i + 1) more

abbrev pub tail_of : List EventAction → List EventAction
tail_of [] = []
tail_of (_ ∷ more) = more

-- __actionstring2code()
unfoldable pub actionstring2code : Bytes → ℕ
unfolding find_action str_case_eq
actionstring2code [] = 0
actionstring2code (c ∷ s) = find_action (c ∷ s) 1 (tail_of event_action)

-- The scheduling type that the first character asks for, and where the hours begin.
unfoldable pub read_type : Bytes → ℕ × Bytes
read_type [] = (type_daily, [])
read_type (c ∷ s) =
    if c == b'@'
    then (type_interval, s)
    else if c == b'!'
    then (type_once, s)
    else (type_daily, c ∷ s)

-- What reading a part of an event string comes to.
pub data Reading (A : Type 0) : Type 0 where
  accepted : A → Reading A
  rejected : ParseError → Reading A

-- errno after strtol(), which sets it only on an error
abbrev pub errno_after : ℕ → Strtol → ℕ
errno_after errno r = if r.erange then erange else errno

-- What follows a `:`.
abbrev pub behind_colon : Bytes → Option Bytes
behind_colon [] = none
behind_colon (c ∷ s) = if c == b':' then some s else none

-- "Read hours": the hours, and where the minutes begin
unfoldable pub read_hours : ℕ → ℕ → Bytes → ℕ × Reading (ℤ × Bytes)
unfolding strtol
read_hours errno type sptr =
    let r = strtol sptr in
    let errno' = errno_after errno r in
    let after : Reading (ℤ × Bytes) = elim (behind_colon r.rest) [
      | none ↦ rejected bad_separator
      | some s ↦ accepted (r.value, s)
    ] in
    (
      errno',
      if not (errno' == 0)
          then rejected hours_conversion
          else if not r.converted
          then rejected no_hours
          else if type == type_daily && (ltb_ℤ r.value (pos 0) || ltb_ℤ (pos 23) r.value)
          then rejected hours_range
          else if ltb_ℤ r.value (pos 0)
          then rejected hours_negative
          else after,
    )

-- "Read minutes": the minutes, and what follows them
unfoldable pub read_minutes : ℕ → Bytes → ℕ × Reading (ℤ × Bytes)
unfolding strtol
read_minutes errno sptr =
    let r = strtol sptr in
    let errno' = errno_after errno r in
    (
      errno',
      if not (errno' == 0)
          then rejected minutes_conversion
          else if not r.converted
          then rejected no_minutes
          else if ltb_ℤ r.value (pos 0) || ltb_ℤ (pos 59) r.value
          then rejected minutes_range
          else accepted (r.value, r.rest),
    )

-- "Read Event Code", behind white space
unfoldable pub read_action : Bytes → Reading ℕ
unfolding actionstring2code trim_front
read_action eptr =
    let s = trim_front eptr in
    let action = actionstring2code s in
    if not (is_nonempty s)
    then rejected missing_code
    else if action == 0
    then rejected unknown_action
    else accepted action

-- readvalue * n for a readvalue that is not negative, as an int
abbrev pub times : ℤ → ℕ → ℤ
times z n = wrap32 (pos (pos_part z * n))

-- .localoffset of so many hours and minutes
unfoldable pub offset_of : ℤ → ℤ → ℤ
unfolding wrap32
offset_of hours minutes = wrap32 (times hours seconds_per_hour +ℤ times minutes seconds_per_minute)

-- What the loop over the strings leaves: errno, the accepted events, and an error for each discarded string.
pub record Parsing : Type 0 where
  pub errno : ℕ
  pub events : List Event
  pub errors : List ParseError

-- The result, errno, and g_parsed and g_errors afterwards.
pub record TestParse : Type 0 where
  pub result : ℤ
  pub errno : ℕ
  pub g_parsed : Option (List Event)
  pub g_errors : List ParseError

-- What a round of the loop adds: an event, or an error.
abbrev pub add_reading : Reading Event → Parsing → Parsing
add_reading (accepted e) rest = record rest { events = e ∷ rest.events }
add_reading (rejected e) rest = record rest { errors = e ∷ rest.errors }

module _ (tz : TimeZone) (cfg : EventCfg) (now : ℤ) where
  -- What the last checks make of the parts of an event string.
  unfoldable pub assemble : ℕ → ℤ → ℤ → Reading ℕ → Reading Event
  unfolding offset_of
  assemble type hours minutes (rejected e) = rejected e
  assemble type hours minutes (accepted action) =
      let e = record zero_event {
        type = type;
        action = action;
        source = source_parsed;
        localoffset = offset_of hours minutes;
      } in
      if ltb_ℤ e.localoffset (pos 0)
      then rejected negative_offset
      else accepted (schedule_next_trigger tz cfg now e)

  -- The round of the loop behind the hours.
  unfoldable pub parse_minutes : ℕ → ℕ × Reading (ℤ × Bytes) → ℕ × Reading Event
  unfolding read_minutes read_action assemble
  parse_minutes type (errno, rejected e) = (errno, rejected e)
  parse_minutes type (errno, accepted (hours, sptr)) =
      let (errno', minutes) = read_minutes errno sptr in
      (
        errno',
        elim minutes [
          | rejected e ↦ rejected e
          | accepted (n, eptr) ↦ assemble type hours n (read_action eptr)
        ],
      )

  -- One round of the loop over the strings: errno behind it, and the event or the error.
  unfoldable pub parse_event : ℕ → Bytes → ℕ × Reading Event
  unfolding read_type read_hours parse_minutes
  parse_event errno [] = (errno, rejected empty_string)
  parse_event errno (c ∷ s) =
      let (type, sptr) = read_type (c ∷ s) in parse_minutes type (read_hours errno type sptr)

  -- the `for` over the strings
  unfoldable pub parse_events : ℕ → List Bytes → Parsing
  unfolding parse_event
  parse_events errno [] = record { errno = errno; events = []; errors = [] }
  parse_events errno (s ∷ ss) =
      let (errno', reading) = parse_event errno s in add_reading reading (parse_events errno' ss)

  -- the EVENT_ACTION_POWERON event of a resume event
  unfoldable pub power_on_before : Event → Event
  power_on_before resume =
      let early = resume.localoffset -ℤ cfg.powerupdelay in
      let e = record zero_event {
        type = type_daily;
        source = source_parsed;
        localoffset = if ltb_ℤ early (pos 0) then early +ℤ pos seconds_per_day else early;
      } in
      record (schedule_next_trigger tz cfg now e) { action = action_poweron }

  -- the loop that copies the events and puts one in front of each resume event
  unfoldable pub insert_power_on : List Event → List Event
  unfolding power_on_before
  insert_power_on [] = []
  insert_power_on (e ∷ es) =
      let rest = e ∷ insert_power_on es in
      if e.action == action_resume then power_on_before e ∷ rest else rest

  -- event_test_parse() behind the loop; `sort` is qsort() by __cmpevent()
  unfoldable pub after_loop : (List Event → List Event) → List ParseError → Parsing → TestParse
  unfolding insert_power_on
  after_loop sort old_errors p =
      let errors = old_errors ++ p.errors in
      let powered =
        if not (is_zero cfg.powercontrol) && not (is_zero cfg.powerupdelay)
        then insert_power_on p.events
        else p.events in
      if ltb 0 (length p.errors)
      then record {
        result = pos (length p.errors);
        errno = einval;
        g_parsed = some p.events;
        g_errors = errors;
      }
      else if length p.events == 0
      then record { result = pos 0; errno = enodata; g_parsed = some p.events; g_errors = errors }
      else record { result = pos 0; errno = 0; g_parsed = some (sort powered); g_errors = errors }

  -- event_test_parse(), with errno as it is when the loop begins
  unfoldable pub event_test_parse :
      (List Event → List Event)
      → Option (List Event)
      → List ParseError
      → ℕ
      → Option (List Bytes)
      → TestParse
  unfolding parse_events after_loop
  event_test_parse sort g_parsed g_errors errno none = record {
    result = negsuc 0;
    errno = einval;
    g_parsed = g_parsed;
    g_errors = g_errors;
  }
  event_test_parse sort g_parsed g_errors errno (some array) =
      let strings = nonempty_strings array in
      let old_errors : List ParseError = elim g_parsed [ none ↦ g_errors | some _ ↦ [] ] in
      elim strings [
        | [] ↦ record {
          result = negsuc 0;
          errno = einval;
          g_parsed = g_parsed;
          g_errors = g_errors;
        }
        | s ∷ ss ↦ after_loop sort old_errors (parse_events errno (s ∷ ss))
      ]
