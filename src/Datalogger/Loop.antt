-- ===== src/Datalogger/Loop.antt =====
-- The main loop of datalogger() ends, and what it leaves.
use icmond.Prelude.{
  ◌≡◌, refl, sym, Bool, true, false, not, ◌&&◌, ◌||◌, if◌then◌else◌, List, [], ◌∷◌, ℤ, pos, ltb_ℤ,
  eqb_ℤ, Run, ok, Returns, returns, Returns-bind, Bool-cases, inl, inr, arith,
}
use mathlib.Core.Path.{subst}
use icmond.EventTypes.{Bytes}
use icmond.Daemon.{WaitStatus}
use icmond.Ping.{Icmp}
use icmond.Datalogger.{
  Logger, Turn, process_scrubber, on_scrubber_timeout, is_busy, main_loop, turn,
}
use icmond.Datalogger.TurnLaws.{
  process_scrubber-HasEnded, process_children-reaped, on_signal-quiet, turn-Turned,
}
use icmond.Datalogger.Turns.{
  Ended, nil, cons, Runs, waits, expires, ends, IsTimed, Turned, some_turn, modem_answer,
  inet_answer, IsRunning, HasEnded,
}

-- A ping that listens gets an answer in some turn.
abbrev pub IsAnswered : (Turn → Bool) → List Turn → Icmp × Bool → Type 0
IsAnswered answers turns (icmp, armed) =
    icmp.sent_and_listening && not (some_turn answers turns) ≡ false

-- Both pings' timers are armed while they listen, and both get their answers.
pub record Pings (turns : List Turn) (s : Logger) : Type 0 where
  pub modem_timed : IsTimed s.modem
  pub inet_timed : IsTimed s.inet
  pub modem_answered : IsAnswered modem_answer turns s.modem
  pub inet_answered : IsAnswered inet_answer turns s.inet

-- What the main loop leaves.
pub record Left (pid : ℤ) (late : Bool) (status : WaitStatus) (stdout : Bytes) (s : Logger)
    : Type 0 where
  pub ended : HasEnded pid late status stdout s
  pub modem_off : s.modem.0.sent_and_listening ≡ false
  pub inet_off : s.inet.0.sent_and_listening ≡ false

idle-off :
    (a b c m i : Bool) → not a || (not b || (not c || (m || i))) ≡ false → (m ≡ false) × (i ≡ false)
idle-off a b c m i h = ground arith

answered-next :
    (listens answer rest : Bool)
    → listens && not (answer || rest) ≡ false
    → (listens && not answer) && not rest ≡ false
answered-next listens answer rest h = ground arith

Pings-next :
    (t : Turn) (ts : List Turn) (s s' : Logger) → Turned t s s' → Pings (t ∷ ts) s → Pings ts s'
Pings-next t ts s s' d p = subst (Pings ts) (sym d.same) record {
  modem_timed = d.modem_listens.0;
  inet_timed = d.inet_listens.0;
  modem_answered =
      rw d.modem_listens.1
        (answered-next _ (modem_answer t) (some_turn modem_answer ts) p.modem_answered);
  inet_answered =
      rw d.inet_listens.1
        (answered-next _ (inet_answer t) (some_turn inet_answer ts) p.inet_answered);
}

HasEnded-next :
    {pid : ℤ} {late : Bool} {status : WaitStatus} {stdout : Bytes} (t : Turn) (s s' : Logger)
    → Turned t s s'
    → HasEnded pid late status stdout s
    → HasEnded pid late status stdout s'
HasEnded-next {pid} {late} {status} {stdout} t s s' d e =
    subst (HasEnded pid late status stdout) (sym d.same) record {
      no_scrubber = e.no_scrubber;
      late_is = e.late_is;
      buffer_is = e.buffer_is;
      no_inetping = e.no_inetping;
      no_modemping = e.no_modemping;
      value_is = e.value_is;
      killed_is = e.killed_is;
    }

IsRunning-next :
    {pid : ℤ} {late : Bool} (t : Turn) (s s' : Logger)
    → Turned t s s'
    → IsRunning pid late s
    → IsRunning pid late s'
IsRunning-next {pid} {late} t s s' d r = subst (IsRunning pid late) (sym d.same) record {
  runs = r.runs;
  armed = r.armed;
  late_is = r.late_is;
  buffer_is = r.buffer_is;
  no_inetping = r.no_inetping;
  no_modemping = r.no_modemping;
  value_is = r.value_is;
  killed_is = r.killed_is;
}

module _ (acknowledge : Bool → Run Bool) (one_shot : acknowledge true ≡ ok false) (pid : ℤ)
    (status : WaitStatus) (stdout : Bytes) (positive : ltb_ℤ (pos 0) pid ≡ true) where
  -- What follows a turn of the main loop.
  abbrev after_turn : List Turn → Logger → Run Logger
  after_turn ts s =
      let rest = main_loop acknowledge ts s in if is_busy acknowledge s then rest else ok s

  no_timeout :
      (t : Turn) (s : Logger)
      → t.scrubber_expired ≡ false
      → on_scrubber_timeout acknowledge t.scrubber_expired s ≡ ok s
  unfolding on_scrubber_timeout
  no_timeout t s h = rw h refl

  after_turn-Left :
      {late : Bool} (ts : List Turn) (s : Logger)
      → Ended ts
      → HasEnded pid late status stdout s
      → Pings ts s
      → Returns (Left pid late status stdout) (after_turn ts s)
  unfolding main_loop
  after_turn-Left [] s nil e p =
      let modem_off : s.modem.0.sent_and_listening ≡ false = ground (arith, p.modem_answered) in
      let inet_off : s.inet.0.sent_and_listening ≡ false = ground (arith, p.inet_answered) in
      let idle : is_busy acknowledge s ≡ false =
        rw (e.no_inetping, e.no_modemping, e.no_scrubber, modem_off, inet_off) refl in
      rw idle (returns s record { ended = e; modem_off = modem_off; inet_off = inet_off })
  after_turn-Left (t ∷ ts) s (cons calm quiet unexpired more) e p =
      elim (Bool-cases (is_busy acknowledge s)) [
        | inr idle ↦
            let (modem_off, inet_off) =
              idle-off (eqb_ℤ s.inetping_pid (pos 0)) (eqb_ℤ s.modemping_pid (pos 0))
                (eqb_ℤ s.scrubber_pid (pos 0)) _ _ idle in
            rw idle (returns s record { ended = e; modem_off = modem_off; inet_off = inet_off })
        | inl busy ↦ rw busy (
            Returns-bind
              (turn-Turned acknowledge one_shot t s s s calm (on_signal-quiet t.signal s quiet)
                (no_timeout t s unexpired) p.modem_timed p.inet_timed)
              λ s' d.
                after_turn-Left ts s' more (HasEnded-next t s s' d e) (Pings-next t ts s s' d p))
      ]

  abbrev expired : Logger → Logger
  expired s = record s {
    scrubber_armed = false;
    killed_for_timeout = true;
    killed = s.scrubber_pid ∷ s.killed;
  }

  on_scrubber_timeout-expired :
      (t : Turn) (s : Logger)
      → t.scrubber_expired ≡ true
      → IsRunning pid false s
      → on_scrubber_timeout acknowledge t.scrubber_expired s ≡ ok (expired s)
  unfolding on_scrubber_timeout
  on_scrubber_timeout-expired t s h r = rw (h, r.armed, one_shot) refl

  expired-IsRunning : (s : Logger) → IsRunning pid false s → IsRunning pid true (expired s)
  expired-IsRunning s r = record {
    runs = r.runs;
    armed = refl;
    late_is = refl;
    buffer_is = r.buffer_is;
    no_inetping = r.no_inetping;
    no_modemping = r.no_modemping;
    value_is = r.value_is;
    killed_is = rw (r.runs, r.killed_is) refl;
  }

  running-busy : {late : Bool} (s : Logger) → IsRunning pid late s → is_busy acknowledge s ≡ true
  running-busy s r =
      let running : eqb_ℤ s.scrubber_pid (pos 0) ≡ false = rw r.runs (ground (arith, positive)) in
      rw (r.no_inetping, r.no_modemping, running) refl

  -- The next turn of a scrubber that runs on.
  next-Left :
      {late timed_out : Bool} (t : Turn) (ts : List Turn) (s s2 : Logger)
      → Returns (Turned t s2) (turn acknowledge t s)
      → IsRunning pid late s2
      → Pings (t ∷ ts) s2
      → ((s' : Logger)
          → IsRunning pid late s'
          → Pings ts s'
          → Returns (Left pid timed_out status stdout) (main_loop acknowledge ts s'))
      → Returns (Left pid timed_out status stdout) (main_loop acknowledge (t ∷ ts) s)
  unfolding main_loop
  next-Left t ts s s2 turned r p continue = Returns-bind turned λ s' d.
      let r' = IsRunning-next t s2 s' d r in
      rw (running-busy s' r') (continue s' r' (Pings-next t ts s2 s' d p))

  pub main_loop-Left :
      {late timed_out : Bool} (ts : List Turn) (s : Logger)
      → Runs pid status stdout timed_out late ts
      → IsRunning pid late s
      → Pings ts s
      → Returns (Left pid timed_out status stdout) (main_loop acknowledge ts s)
  main_loop-Left [] s runs r p = elim runs [ ]
  main_loop-Left (t ∷ ts) s (waits calm quiet unexpired more) r p =
      next-Left t ts s s
        (turn-Turned acknowledge one_shot t s s s calm (on_signal-quiet t.signal s quiet)
          (no_timeout t s unexpired) p.modem_timed p.inet_timed)
        r p λ s' r' p'. main_loop-Left ts s' more r' p'
  main_loop-Left (t ∷ ts) s (expires calm quiet late_ more) r p =
      next-Left t ts s (expired s)
        (turn-Turned acknowledge one_shot t s s (expired s) calm (on_signal-quiet t.signal s quiet)
          (on_scrubber_timeout-expired t s late_ r) p.modem_timed p.inet_timed)
        (expired-IsRunning s r)
        (record {
          modem_timed = p.modem_timed;
          inet_timed = p.inet_timed;
          modem_answered = p.modem_answered;
          inet_answered = p.inet_answered;
        })
        λ s' r' p'. main_loop-Left ts s' more r' p'
  main_loop-Left {timed_out} (t ∷ ts) s (ends {children} calm child reaping unexpired more) r p =
      let s1 = process_scrubber status stdout s in
      let (e, modem, inet) = process_scrubber-HasEnded pid timed_out status stdout s r in
      let pings : Pings (t ∷ ts) s1 = record {
        modem_timed = subst IsTimed (sym modem) p.modem_timed;
        inet_timed = subst IsTimed (sym inet) p.inet_timed;
        modem_answered = subst (IsAnswered modem_answer (t ∷ ts)) (sym modem) p.modem_answered;
        inet_answered = subst (IsAnswered inet_answer (t ∷ ts)) (sym inet) p.inet_answered;
      } in
      unfold main_loop in
      Returns-bind
        (turn-Turned acknowledge one_shot t s s1 s1 calm
          (rw child
            (process_children-reaped pid timed_out status stdout children s positive reaping r))
          (no_timeout t s1 unexpired) pings.modem_timed pings.inet_timed)
        λ s' d.
          after_turn-Left ts s' more (HasEnded-next t s1 s' d e) (Pings-next t ts s1 s' d pings)
