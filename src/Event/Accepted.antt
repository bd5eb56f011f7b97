-- ===== src/Event/Accepted.antt =====
-- The events that the loop of event_test_parse() lets through.
use icmond.Prelude.{
  ℕ, ◌+◌, ◌*◌, ◌≤◌, ◌≡◌, refl, ◌∙◌, ◌==◌, List, [], ◌∷◌, length, arith, ℤ, pos, negsuc, pos_part,
  ltb_ℤ, ◌+ℤ◌, ◌≤ℤ◌, ◌<ℤ◌, Bool-cases, inl, inr, All,
}
use icmond.EventTypes.{
  Bytes, Event, EventAction, event_action, type_daily, type_once, source_parsed, action_maxvalue,
  seconds_per_day,
}
use icmond.Text.{str_case_eq}
use icmond.Text.Trim.{trim_front}
use icmond.Event.Time.{TimeZone, EventCfg, schedule_next_trigger, clamp_offset}
use icmond.Event.Strtol.{wrap32, wrap32-small, long_max}
use icmond.Event.Parse.{
  find_action, tail_of, actionstring2code, Reading, accepted, rejected, read_type, read_hours,
  read_minutes, read_action, times, offset_of, parse_minutes, parse_event, parse_events, Parsing,
  add_reading, assemble,
}

-- What a reading that is accepted satisfies.
abbrev Accepts : {A : Type 0} → (A → Type 0) → Reading A → Type 0
Accepts P (accepted a) = P a
Accepts P (rejected e) = Unit

abbrev IsHours : ℕ → ℤ × Bytes → Type 0
IsHours type (h, _) = (pos 0 ≤ℤ h) × (type ≡ type_daily → h ≤ℤ pos 23)

abbrev IsMinutes : ℤ × Bytes → Type 0
IsMinutes (n, _) = (pos 0 ≤ℤ n) × (n ≤ℤ pos 59)

abbrev IsAction : ℕ → Type 0
IsAction a = (1 ≤ a) × (a ≤ action_maxvalue)

find_action-bounds :
    (s : Bytes) (i : ℕ) (l : List EventAction) → find_action s (i + 1) l ≤ i + length l
unfolding find_action
find_action-bounds s i [] = omega arith
find_action-bounds s i (a ∷ more) = elim (Bool-cases (str_case_eq s a.name)) [
  | inl e ↦ rw e (omega arith)
  | inr e ↦ rw e (omega (arith, find_action-bounds s (i + 1) more))
]

read_hours_bounds :
    (errno type : ℕ) (s : Bytes) → Accepts (IsHours type) (read_hours errno type s).1
unfolding read_hours
read_hours_bounds errno type s = ground arith

read_minutes_bounds : (errno : ℕ) (s : Bytes) → Accepts IsMinutes (read_minutes errno s).1
unfolding read_minutes
read_minutes_bounds errno s = ground arith

actionstring2code-bounds : (s : Bytes) → actionstring2code s ≤ action_maxvalue
unfolding actionstring2code
actionstring2code-bounds [] = omega arith
actionstring2code-bounds (c ∷ s) =
    omega (arith, find_action-bounds (c ∷ s) 0 (tail_of event_action))

read_action_bounds : (s : Bytes) → Accepts IsAction (read_action s)
unfolding read_action
read_action_bounds s = let h = actionstring2code-bounds (trim_front s) in ground arith

-- The event has a type, an action and a time that is not negative, and the time of a daily event is
-- within a day; its source is the configuration.
pub record IsAccepted (e : Event) : Type 0 where
  type_ge : 1 ≤ e.type
  type_le : e.type ≤ type_once
  action_ge : 1 ≤ e.action
  action_le : e.action ≤ action_maxvalue
  source_is : e.source ≡ source_parsed
  offset_ge : pos 0 ≤ℤ e.localoffset
  daily : e.type ≡ type_daily → e.localoffset <ℤ pos seconds_per_day

times-small : (z : ℤ) (n : ℕ) → pos_part z * n ≤ long_max → times z n ≡ pos (pos_part z * n)
times-small z n h = wrap32-small (pos_part z * n) h

pos+ : (a b : ℕ) → pos a +ℤ pos b ≡ pos (a + b)
unfolding ◌+ℤ◌
pos+ a b = ground arith

offset_of-small :
    (h n : ℤ)
    → pos 0 ≤ℤ h
    → h ≤ℤ pos 23
    → pos 0 ≤ℤ n
    → n ≤ℤ pos 59
    → offset_of h n <ℤ pos seconds_per_day
unfolding offset_of
offset_of-small (negsuc h) n a b c d = absurd (omega arith)
offset_of-small (pos h) (negsuc n) a b c d = absurd (omega arith)
offset_of-small (pos h) (pos n) a b c d =
    let e : times (pos h) 3600 ≡ pos (h * 3600) = times-small (pos h) 3600 (omega arith) in
    let f : times (pos n) 60 ≡ pos (n * 60) = times-small (pos n) 60 (omega arith) in
    let g : wrap32 (pos (h * 3600 + n * 60)) ≡ pos (h * 3600 + n * 60) =
      wrap32-small (h * 3600 + n * 60) (omega arith) in
    rw (e, f, pos+ (h * 3600) (n * 60), g) (omega arith)

keeps :
    (e e' : Event)
    → IsAccepted e
    → e'.type ≡ e.type
    → e'.action ≡ e.action
    → e'.source ≡ e.source
    → e'.localoffset ≡ e.localoffset
    → IsAccepted e'
keeps e e' v t a s l = record {
  type_ge = rw t v.type_ge;
  type_le = rw t v.type_le;
  action_ge = rw a v.action_ge;
  action_le = rw a v.action_le;
  source_is = s ∙ v.source_is;
  offset_ge = rw l v.offset_ge;
  daily = rw (t, l) v.daily;
}

module _ (tz : TimeZone) (cfg : EventCfg) (now : ℤ) where
  clamp_id : (z : ℤ) → pos 0 ≤ℤ z → clamp_offset tz cfg z ≡ z
  unfolding clamp_offset
  clamp_id z h = ground arith

  schedule-IsAccepted : (e : Event) → IsAccepted e → IsAccepted (schedule_next_trigger tz cfg now e)
  unfolding schedule_next_trigger
  schedule-IsAccepted e v =
      let h = clamp_id e.localoffset v.offset_ge in
      elim (Bool-cases (e.type == type_daily)) [
        | inl d ↦ rw d (keeps e _ v refl refl refl h)
        | inr d ↦ rw d (keeps e _ v refl refl refl refl)
      ]

  assemble-IsAccepted :
      (type : ℕ) (h n : ℤ) (s s' : Bytes) (a : Reading ℕ)
      → 1 ≤ type
      → type ≤ type_once
      → IsHours type (h, s)
      → IsMinutes (n, s')
      → Accepts IsAction a
      → Accepts IsAccepted (assemble tz cfg now type h n a)
  unfolding assemble
  assemble-IsAccepted type h n s s' (rejected e) _ _ _ _ _ = tt
  assemble-IsAccepted type h n s s' (accepted a) t t' (i, j) (k, l) (q, r) =
      elim (Bool-cases (ltb_ℤ (offset_of h n) (pos 0))) [
        | inl x ↦ rw x tt
        | inr x ↦ rw x (
            schedule-IsAccepted _ record {
              type_ge = t;
              type_le = t';
              action_ge = q;
              action_le = r;
              source_is = refl;
              offset_ge = ground arith;
              daily = λ d. offset_of-small h n i (j d) k l;
            })
      ]

  parse_minutes-IsAccepted :
      (type errno : ℕ) (r : Reading (ℤ × Bytes))
      → 1 ≤ type
      → type ≤ type_once
      → Accepts (IsHours type) r
      → Accepts IsAccepted (parse_minutes tz cfg now type (errno, r)).1
  unfolding parse_minutes
  parse_minutes-IsAccepted type errno (rejected e) _ _ _ = tt
  parse_minutes-IsAccepted type errno (accepted (h, s)) t t' v =
      behind (read_minutes errno s).1 (read_minutes_bounds errno s)
    where
      behind :
          (m : Reading (ℤ × Bytes))
          → Accepts IsMinutes m
          → Accepts IsAccepted (elim m [
            | rejected e ↦ rejected e
            | accepted (n, s') ↦ assemble tz cfg now type h n (read_action s')
          ])
      behind (rejected e) _ = tt
      behind (accepted (n, s')) w =
          assemble-IsAccepted type h n s s' (read_action s') t t' v w (read_action_bounds s')

  read_type-bounds : (s : Bytes) → (1 ≤ (read_type s).0) × ((read_type s).0 ≤ type_once)
  unfolding read_type
  read_type-bounds [] = (omega arith, omega arith)
  read_type-bounds (c ∷ s) = ground arith

  parse_event-IsAccepted :
      (errno : ℕ) (s : Bytes) → Accepts IsAccepted (parse_event tz cfg now errno s).1
  unfolding parse_event
  parse_event-IsAccepted errno [] = tt
  parse_event-IsAccepted errno (c ∷ s) =
      let (type, sptr) = read_type (c ∷ s) in
      let (t, t') = read_type-bounds (c ∷ s) in
      let (errno', r) = read_hours errno type sptr in
      parse_minutes-IsAccepted type errno' r t t' (read_hours_bounds errno type sptr)

  -- Whatever the strings and errno are, each event that the loop accepts has a scheduling type from 1 to
  -- 3, an action from 1 to 7, the source of a parsed event and an offset that is not negative; the
  -- offset of a daily event is less than a day.
  pub parse_events-IsAccepted :
      (errno : ℕ) (ss : List Bytes) → All IsAccepted ((parse_events tz cfg now errno ss).events)
  unfolding parse_events
  parse_events-IsAccepted errno [] = tt
  parse_events-IsAccepted errno (s ∷ ss) =
      let (errno', r) = parse_event tz cfg now errno s in
      entering r (parse_events tz cfg now errno' ss) (parse_event-IsAccepted errno s)
        (parse_events-IsAccepted errno' ss)
    where
      entering :
          (r : Reading Event) (p : Parsing)
          → Accepts IsAccepted r
          → All IsAccepted p.events
          → All IsAccepted ((add_reading r p).events)
      entering (accepted e) p v w = (v, w)
      entering (rejected e) p v w = w
