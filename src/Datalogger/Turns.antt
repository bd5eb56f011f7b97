-- ===== src/Datalogger/Turns.antt =====
-- A turn of the main loop of datalogger(): the scrubber, its end, and the pings.
use icmond.Prelude.{
  ℕ, ◌-◌, ◌≡◌, Bool, true, false, not, ◌&&◌, ◌||◌, ◌==◌, if◌then◌else◌, List, [], ◌∷◌, ℤ, pos,
}
use icmond.EventTypes.{Bytes}
use icmond.Daemon.{WaitStatus, exit_code, signal_number, neither}
use icmond.Ping.{Icmp}
use icmond.Datalogger.{
  Logger, Child, Turn, Signal, no_signal, unexpected, sigchld, flag_scrubber_timeout,
  flag_scrubber_failure, read_string, stdoutbuffer_size,
}

-- What waitpid() gives on SIGCHLD until the scrubber, the only child, is reaped: 0 while it runs, and then
-- its pid, with its status and what it has written.
pub data Reaps (pid : ℤ) (status : WaitStatus) (stdout : Bytes) : List Child → Type 0 where
  reaped : Reaps pid status stdout (record { pid = pid; status = status; stdout = stdout } ∷ [])
  polled :
      {s : WaitStatus} {bytes : Bytes} {cs : List Child}
      → Reaps pid status stdout cs
      → Reaps pid status stdout (record { pid = pos 0; status = s; stdout = bytes } ∷ cs)

-- A signal that is no child's end.
pub data IsQuiet : Signal → Type 0 where
  none_ : IsQuiet no_signal
  other : IsQuiet unexpected
  no_child : IsQuiet (sigchld [])

-- No call of the system fails, and a ping does not get its reply and its timeout in the same turn.
pub record IsCalm (t : Turn) : Type 0 where
  pub selects : t.selected ≡ true
  pub modem_receives : t.modem_received ≡ true
  pub inet_receives : t.inet_received ≡ true
  pub modem_once : t.modem_reply && t.modem_expired ≡ false
  pub inet_once : t.inet_reply && t.inet_expired ≡ false

-- The turns of a scrubber that has ended.
pub data Ended : List Turn → Type 0 where
  nil : Ended []
  cons :
      {t : Turn} {ts : List Turn}
      → IsCalm t
      → IsQuiet t.signal
      → t.scrubber_expired ≡ false
      → Ended ts
      → Ended (t ∷ ts)

-- The turns of a scrubber that runs, after its timeout or before: it ends in one of them, with the status
-- and the output, and by then its timeout is over or not.
pub data Runs (pid : ℤ) (status : WaitStatus) (stdout : Bytes) (timed_out : Bool)
    : (late : Bool) → List Turn → Type 0 where
  waits :
      {t : Turn} {ts : List Turn} {late : Bool}
      → IsCalm t
      → IsQuiet t.signal
      → t.scrubber_expired ≡ false
      → Runs pid status stdout timed_out late ts
      → Runs pid status stdout timed_out late (t ∷ ts)
  expires :
      {t : Turn} {ts : List Turn}
      → IsCalm t
      → IsQuiet t.signal
      → t.scrubber_expired ≡ true
      → Runs pid status stdout timed_out true ts
      → Runs pid status stdout timed_out false (t ∷ ts)
  ends :
      {t : Turn} {ts : List Turn} {children : List Child}
      → IsCalm t
      → t.signal ≡ sigchld children
      → Reaps pid status stdout children
      → t.scrubber_expired ≡ false
      → Ended ts
      → Runs pid status stdout timed_out timed_out (t ∷ ts)

-- A ping listens where its timer is armed.
abbrev pub IsTimed : Icmp × Bool → Type 0
IsTimed (icmp, armed) = icmp.sent_and_listening ≡ armed

-- What a turn does to a ping: it listens on where it has no answer.
abbrev pub Listens : Bool → Icmp × Bool → Icmp × Bool → Type 0
Listens answered ping ping' =
    IsTimed ping' × (ping'.0.sent_and_listening ≡ (ping.0.sent_and_listening && not answered))

-- A turn leaves of the state what its signal and the timeout have made, and its pings' answers.
pub record Turned (t : Turn) (s s' : Logger) : Type 0 where
  pub modem : Icmp × Bool
  pub inet : Icmp × Bool
  pub same : s' ≡ record s { modem = modem; inet = inet }
  pub modem_listens : Listens (t.modem_reply || t.modem_expired) s.modem modem
  pub inet_listens : Listens (t.inet_reply || t.inet_expired) s.inet inet

-- Some turn answers a ping.
abbrev pub some_turn : (Turn → Bool) → List Turn → Bool
some_turn answers [] = false
some_turn answers (t ∷ ts) = answers t || some_turn answers ts

abbrev pub modem_answer : Turn → Bool
modem_answer t = t.modem_reply || t.modem_expired

abbrev pub inet_answer : Turn → Bool
inet_answer t = t.inet_reply || t.inet_expired

-- What process_child() makes of a scrubber's end: the return value, and what is read of its output.
abbrev pub outcome : Bool → WaitStatus → ℕ
outcome late (exit_code code) = if code == 0 then 0 else flag_scrubber_failure
outcome late (signal_number number) = if late then flag_scrubber_timeout else flag_scrubber_failure
outcome late neither = flag_scrubber_failure

abbrev pub written : WaitStatus → Bytes → Bytes
written (exit_code code) stdout = read_string (stdoutbuffer_size - 1) stdout
written (signal_number number) stdout = []
written neither stdout = []

-- A state while the scrubber runs, and one behind its end.
pub record IsRunning (pid : ℤ) (late : Bool) (s : Logger) : Type 0 where
  pub runs : s.scrubber_pid ≡ pid
  pub armed : s.scrubber_armed ≡ not late
  pub late_is : s.killed_for_timeout ≡ late
  pub buffer_is : s.stdoutbuffer ≡ []
  pub no_inetping : s.inetping_pid ≡ pos 0
  pub no_modemping : s.modemping_pid ≡ pos 0
  pub value_is : s.returnvalue ≡ 0
  pub killed_is : s.killed ≡ (if late then pid ∷ [] else [])

pub record HasEnded (pid : ℤ) (late : Bool) (status : WaitStatus) (stdout : Bytes) (s : Logger)
    : Type 0 where
  pub no_scrubber : s.scrubber_pid ≡ pos 0
  pub late_is : s.killed_for_timeout ≡ late
  pub buffer_is : s.stdoutbuffer ≡ written status stdout
  pub no_inetping : s.inetping_pid ≡ pos 0
  pub no_modemping : s.modemping_pid ≡ pos 0
  pub value_is : s.returnvalue ≡ outcome late status
  pub killed_is : s.killed ≡ (if late then pid ∷ [] else [])
