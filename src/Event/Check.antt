-- ===== src/Event/Check.antt =====
-- What event_test_parse() of event.c accepts, and what it counts.
use icmond.Prelude.{
  ℕ, suc, ◌+◌, ◌<◌, ◌≡◌, refl, ap, ◌≢◌, ◌∙◌, true, false, ltb, ◌==◌, if◌then◌else◌, List, [], ◌∷◌,
  Option, none, some, length, arith, ℤ, pos, Bool-cases, inl, inr,
}
use icmond.EventTypes.{Bytes, Event}
use icmond.Arrays.Collapse.{nonempty_strings}
use icmond.Event.Time.{TimeZone, EventCfg}
use icmond.Event.Strtol.{strtol}
use icmond.Event.Parse.{
  ParseError, hours_conversion, empty_string, Reading, accepted, rejected, erange, read_type,
  read_hours, parse_minutes, einval, event_test_parse, after_loop, parse_event, Parsing,
  parse_events, add_reading,
}

read_hours-errno :
    (errno type : ℕ) (s : Bytes)
    → errno ≢ 0
    → (errno' : ℕ) × (read_hours errno type s ≡ (errno', rejected hours_conversion)) × (errno' ≢ 0)
unfolding read_hours
read_hours-errno errno type s h = elim (Bool-cases ((strtol s).erange)) [
  | inl r ↦ (erange, rw r refl, omega arith)
  | inr r ↦ let e : (errno == 0) ≡ false = ground arith in (errno, rw (r, e) refl, h)
]

has_head : (ss : List Bytes) → 0 < length ss → (s : Bytes) × (rest : List Bytes) × (ss ≡ s ∷ rest)
has_head [] h = absurd (omega arith)
has_head (s ∷ ss) h = (s, ss, refl)

module _ (tz : TimeZone) (cfg : EventCfg) (now : ℤ) where
  parse_event-errno :
      (errno : ℕ) (s : Bytes)
      → errno ≢ 0
      → (errno' : ℕ) × (e : ParseError) × (parse_event tz cfg now errno s ≡ (errno', rejected e))
        × (errno' ≢ 0)
  unfolding parse_event parse_minutes
  parse_event-errno errno [] h = (errno, empty_string, refl, h)
  parse_event-errno errno (c ∷ s) h =
      let (type, sptr) = read_type (c ∷ s) in
      let (errno', e, h') = read_hours-errno errno type sptr h in
      (errno', hours_conversion, rw e refl, h')

  count_reading :
      (r : Reading Event) (p : Parsing)
      → length ((add_reading r p).events) + length ((add_reading r p).errors)
        ≡ suc (length p.events + length p.errors)
  count_reading (accepted e) p = omega arith
  count_reading (rejected e) p = omega arith

  parse_events-counts :
      (errno : ℕ) (ss : List Bytes)
      → length ((parse_events tz cfg now errno ss).events)
          + length ((parse_events tz cfg now errno ss).errors)
        ≡ length ss
  unfolding parse_events
  parse_events-counts errno [] = refl
  parse_events-counts errno (s ∷ ss) =
      let (errno', r) = parse_event tz cfg now errno s in
      count_reading r (parse_events tz cfg now errno' ss) ∙ ap suc (parse_events-counts errno' ss)

  parse_events-errno :
      (errno : ℕ) (ss : List Bytes) → errno ≢ 0 → (parse_events tz cfg now errno ss).events ≡ []
  unfolding parse_events
  parse_events-errno errno [] h = refl
  parse_events-errno errno (s ∷ ss) h =
      let (errno', e, run, h') = parse_event-errno errno s h in
      ap (λ (r : ℕ × Reading Event). (add_reading r.1 (parse_events tz cfg now r.0 ss)).events) run
      ∙ parse_events-errno errno' ss h'

  -- If the hours of an event string are out of strtol()'s range, the string is discarded and so is
  -- every string behind it, whatever it says: errno is not reset between the strings.
  pub parse_events-out_of_range :
      (errno : ℕ) (c : ℕ) (s : Bytes) (ss : List Bytes)
      → (strtol (read_type (c ∷ s)).1).erange ≡ true
      → (parse_events tz cfg now errno ((c ∷ s) ∷ ss)).events ≡ []
  unfolding parse_events parse_event parse_minutes read_hours
  parse_events-out_of_range errno c s ss far = rw far (parse_events-errno erange ss (omega arith))

  after_loop_counts :
      (sort : List Event → List Event) (old : List ParseError) (p : Parsing)
      → 0 < length p.events + length p.errors
      → ((after_loop tz cfg now sort old p).result ≡ pos (length p.errors))
        × ((after_loop tz cfg now sort old p).errno ≡ (if length p.errors == 0 then 0 else einval))
  unfolding after_loop
  after_loop_counts sort old p h = elim (Bool-cases (ltb 0 (length p.errors))) [
    | inl bad ↦
        let k : (length p.errors == 0) ≡ false = ground arith in (rw bad refl, rw (bad, k) refl)
    | inr good ↦
        let k : length p.errors ≡ 0 = ground arith in
        let l : (length p.events == 0) ≡ false = ground arith in (rw (k, l) refl, rw (k, l) refl)
  ]

  -- event_test_parse() on strings of which at least one is not empty. The accepted events and the
  -- errors of the loop are as many as the strings that are not empty. The result is the number of the
  -- errors, and errno is EINVAL if there is one and 0 if there is none: it is never ENODATA.
  pub event_test_parse_counts :
      (sort : List Event → List Event) (g_parsed : Option (List Event)) (g_errors : List ParseError)
      (errno : ℕ) (array : List Bytes)
      → 0 < length (nonempty_strings array)
      → let p = parse_events tz cfg now errno (nonempty_strings array) in
        let r = event_test_parse tz cfg now sort g_parsed g_errors errno (some array) in
        (length p.events + length p.errors ≡ length (nonempty_strings array))
        × (r.result ≡ pos (length p.errors))
        × (r.errno ≡ (if length p.errors == 0 then 0 else einval))
  unfolding event_test_parse
  event_test_parse_counts sort g_parsed g_errors errno array some_string =
      let c = parse_events-counts errno (nonempty_strings array) in
      let (s, ss, e) = has_head (nonempty_strings array) some_string in
      let old : List ParseError = elim g_parsed [ none ↦ g_errors | some _ ↦ [] ] in
      let p = parse_events tz cfg now errno (s ∷ ss) in
      let h : 0 < length (s ∷ ss) = omega arith in
      let (r, r') =
        after_loop_counts sort old p (omega (arith, h, parse_events-counts errno (s ∷ ss))) in
      (c, rw (event_test_parse, e) r, rw (event_test_parse, e) r')
