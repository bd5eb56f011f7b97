-- ===== src/Datalogger.antt =====
-- datalogger.c: the worker process, which runs the scrubber script and pings two hosts, waits for the
-- three, and stores a record. The results of the calls of the system are arguments; a timer is whether it
-- is armed. File descriptors in use are not 0.
pub mod Finish
pub mod Turns
pub mod TurnLaws
pub mod Loop
pub mod Result
use icmond.Prelude.{
  ℕ, zero, suc, ◌+◌, ◌-◌, ◌*◌, ◌/◌, ◌%◌, Bool, true, false, not, ◌&&◌, ◌||◌, ◌==◌, if◌then◌else◌,
  List, [], ◌∷◌, ℤ, pos, negsuc, eqb_ℤ, ltb_ℤ, Run, ok, exited, out_of_fuel, ◌>>=◌,
}
use icmond.EventTypes.{Bytes}
use icmond.Daemon.{WaitStatus, exit_code, signal_number, neither}
use icmond.Ping.{Timespec, Icmp, icmp_send, icmp_receive, icmp_cancel}

-- DATALOGGER_SQLITE3_ERROR and the flags
abbrev pub sqlite3_error : ℕ
sqlite3_error = 2

abbrev pub flag_scrubber_timeout : ℕ
flag_scrubber_timeout = 32

abbrev pub flag_scrubber_failure : ℕ
flag_scrubber_failure = 64

abbrev pub flag_scrubber_dataerror : ℕ
flag_scrubber_dataerror = 128

-- `value |= flag`, for a flag of one bit
unfoldable pub set_flag : ℕ → ℕ → ℕ
set_flag flag value = if value / flag % 2 == 1 then value else value + flag

-- `scrubber`, `inetping`, `modemping` and `instance`, and the two pings of datalogger(), each with whether
-- its timer is armed; `killed` are the pids that SIGKILL has gone to.
pub record Logger : Type 0 where
  pub scrubber_pid : ℤ
  pub scrubber_armed : Bool
  pub killed_for_timeout : Bool
  pub stdoutbuffer : Bytes
  pub inetping_pid : ℤ
  pub modemping_pid : ℤ
  pub returnvalue : ℕ
  pub modem : Icmp × Bool
  pub inet : Icmp × Bool
  pub killed : List ℤ

-- it_value of scrubber.tspec in init_scrubber_struct(), for a timeout in milliseconds
abbrev pub scrubber_timeout : ℕ → ℕ × ℕ
scrubber_timeout timeout = (timeout / 1000, timeout % 1000)

-- SCRUBBER_STDOUTBUFFER_SIZE
abbrev pub stdoutbuffer_size : ℕ
stdoutbuffer_size = 128

-- The string in a buffer of zeros into which read() puts at most `room` bytes.
unfoldable pub read_string : ℕ → Bytes → Bytes
read_string zero bytes = []
read_string (suc room) [] = []
read_string (suc room) (byte ∷ bytes) =
    let rest = read_string room bytes in if byte == 0 then [] else byte ∷ rest

-- What waitpid() gives, and what is in the pipe then.
pub record Child : Type 0 where
  pub pid : ℤ
  pub status : WaitStatus
  pub stdout : Bytes

-- The two branches of process_child() for a scrubber that a signal has ended.
abbrev pub signalled : Logger → Logger
signalled s = record s {
  returnvalue =
      if s.killed_for_timeout
      then set_flag flag_scrubber_timeout s.returnvalue
      else set_flag flag_scrubber_failure s.returnvalue;
}

-- The branch of process_child() for the scrubber.
unfoldable pub process_scrubber : WaitStatus → Bytes → Logger → Logger
unfolding set_flag read_string
process_scrubber status stdout s =
    let cleared = record s { scrubber_armed = false; scrubber_pid = pos 0 } in
    let read_ = record cleared { stdoutbuffer = read_string (stdoutbuffer_size - 1) stdout } in
    let failed : Logger → Logger =
      λ l. record l { returnvalue = set_flag flag_scrubber_failure l.returnvalue } in
    elim status [
      | exit_code code ↦ if code == 0 then read_ else failed read_
      | signal_number number ↦ signalled cleared
      | neither ↦ failed cleared
    ]

-- process_child(), which returns EXIT_SUCCESS where it returns
unfoldable pub process_child : Child → Logger → Run Logger
unfolding process_scrubber
process_child c s =
    if eqb_ℤ c.pid s.scrubber_pid
    then ok (process_scrubber c.status c.stdout s)
    else if eqb_ℤ c.pid s.inetping_pid
    then ok (record s { inetping_pid = pos 0 })
    else if eqb_ℤ c.pid s.modemping_pid
    then ok (record s { modemping_pid = pos 0 })
    else exited

-- `while ((pid = waitpid(-1, &status, WNOHANG)) != -1)`, over what waitpid() gives before -1
unfoldable pub process_children : List Child → Logger → Run Logger
unfolding process_child
process_children [] s = ok s
process_children (c ∷ cs) s = process_child c s >>= process_children cs

-- The pids that process_terminate() kills.
abbrev pub live_pid : ℤ → List ℤ → List ℤ
live_pid pid pids = if eqb_ℤ pid (pos 0) then pids else pid ∷ pids

-- process_terminate()
unfoldable pub process_terminate : Logger → Logger
process_terminate s = record s {
  killed = live_pid s.inetping_pid (live_pid s.modemping_pid (live_pid s.scrubber_pid s.killed));
}

-- What the signal descriptor has in a turn of the main loop: nothing, a read that fails, or a signal.
pub data Signal : Type 0 where
  no_signal unreadable sigterm unexpected : Signal
  sigchld : List Child → Signal

-- A turn of the main loop: whether pselect() returns, the signal, which of the other descriptors are
-- ready, the times of the replies, and whether recvfrom() receives them.
pub record Turn : Type 0 where
  pub selected : Bool
  pub signal : Signal
  pub scrubber_expired : Bool
  pub modem_reply : Bool
  pub modem_expired : Bool
  pub modem_time : Timespec
  pub modem_received : Bool
  pub inet_reply : Bool
  pub inet_expired : Bool
  pub inet_time : Timespec
  pub inet_received : Bool

-- "SIGNALS"; behind SIGTERM the process exits, when process_terminate() has killed its children
unfoldable pub on_signal : Signal → Logger → Run Logger
unfolding process_children
on_signal no_signal s = ok s
on_signal unreadable s = exited
on_signal sigterm s = exited
on_signal unexpected s = ok s
on_signal (sigchld children) s = process_children children s

-- `acknowledge` is timerfd_acknowledge(), for a timer that is armed or not.
module _ (acknowledge : Bool → Run Bool) where
  -- "Scrubber timeout"
  unfoldable pub on_scrubber_timeout : Bool → Logger → Run Logger
  on_scrubber_timeout expired s =
      let late : Run Logger = do
        armed ← acknowledge s.scrubber_armed
        ok (record s {
          scrubber_armed = armed;
          killed_for_timeout = true;
          killed = s.scrubber_pid ∷ s.killed;
        })
      in if expired then late else ok s

  -- "ICMP Echo", for one ping whose descriptors were in the set if it was listening
  unfoldable pub on_ping : Bool → Bool → Timespec → Bool → Icmp × Bool → Run (Icmp × Bool)
  unfolding icmp_receive icmp_cancel
  on_ping reply expired now received (icmp, armed) =
      let answered : Run (Icmp × Bool) = do
        received_icmp ← icmp_receive now received icmp
        ok (received_icmp, false)
      in let cancelled : Icmp × Bool → Run (Icmp × Bool) =
          λ (icmp', armed'). acknowledge armed' >>= λ still. ok (icmp_cancel icmp', still) in
        (if reply && icmp.sent_and_listening then answered else ok (icmp, armed)) >>= λ after.
        if expired && icmp.sent_and_listening then cancelled after else ok after

  -- the body of the main loop of datalogger()
  unfoldable pub turn : Turn → Logger → Run Logger
  unfolding on_signal on_scrubber_timeout on_ping
  turn t s =
      let body : Run Logger = do
        s1 ← on_signal t.signal s
        s2 ← on_scrubber_timeout t.scrubber_expired s1
        modem ← on_ping t.modem_reply t.modem_expired t.modem_time t.modem_received s2.modem
        inet ← on_ping t.inet_reply t.inet_expired t.inet_time t.inet_received s2.inet
        ok (record s2 { modem = modem; inet = inet })
      in if t.selected then body else exited

  -- the condition of the main loop
  abbrev pub is_busy : Logger → Bool
  is_busy s =
      not (eqb_ℤ s.inetping_pid (pos 0))
      || (not (eqb_ℤ s.modemping_pid (pos 0))
          || (not (eqb_ℤ s.scrubber_pid (pos 0))
              || (s.modem.0.sent_and_listening || s.inet.0.sent_and_listening)))

  -- the main loop of datalogger(), over its turns
  unfoldable pub main_loop : List Turn → Logger → Run Logger
  unfolding turn
  main_loop [] s = out_of_fuel
  main_loop (t ∷ ts) s =
      turn t s >>= λ s1. (let rest = main_loop ts s1 in if is_busy s1 then rest else ok s1)

-- What the calls of datalogger() before its main loop return: whether the capabilities, the signal mask and
-- the descriptors can be had, the pings that icmp_prepare() makes, what fork() returns, and whether and
-- when the echo requests are sent.
pub record Startup : Type 0 where
  pub capable : Bool
  pub raw_capable : Bool
  pub timer_created : Bool
  pub masked : Bool
  pub signalfd_created : Bool
  pub modem_prepared : Run Icmp
  pub inet_prepared : Run Icmp
  pub forked : ℤ
  pub inet_time : Timespec
  pub inet_sent : Bool
  pub modem_time : Timespec
  pub modem_sent : Bool

-- It holds, or the process exits.
abbrev pub must : Bool → Run Bool
must holds = if holds then ok true else exited

-- datalogger(), up to its main loop, in the process that fork() returns a pid to; the child runs the
-- script or exits
unfoldable pub start_logger : Startup → Run Logger
unfolding icmp_send
start_logger s = do
  capable ← must s.capable
  raw_capable ← must s.raw_capable
  timer ← must s.timer_created
  masked ← must s.masked
  signalfd ← must s.signalfd_created
  modem ← s.modem_prepared
  inet ← s.inet_prepared
  parent ← must (ltb_ℤ (pos 0) s.forked)
  inet_ping ← icmp_send s.inet_time s.inet_sent inet
  modem_ping ← icmp_send s.modem_time s.modem_sent modem
  ok record {
    scrubber_pid = s.forked;
    scrubber_armed = true;
    killed_for_timeout = false;
    stdoutbuffer = [];
    inetping_pid = pos 0;
    modemping_pid = pos 0;
    returnvalue = 0;
    modem = (modem_ping, true);
    inet = (inet_ping, true);
    killed = [];
  }
