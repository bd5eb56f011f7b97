-- ===== src/Datalogger/TurnLaws.antt =====
-- What a turn of the main loop of datalogger() does.
use icmond.Prelude.{
  ◌≡◌, refl, sym, ◌∙◌, ap, inl, inr, Bool, true, false, ◌&&◌, ◌||◌, ◌==◌, List, ℤ, pos, eqb_ℤ,
  ltb_ℤ, Run, ok, Returns, returns, Returns-bind, Bool-cases, arith,
}
use icmond.EventTypes.{Bytes}
use icmond.Daemon.{WaitStatus, exit_code, signal_number, neither}
use icmond.Ping.{Timespec, Icmp, icmp_receive, icmp_cancel}
use icmond.Datalogger.{
  Logger, Child, Turn, Signal, set_flag, process_scrubber, process_child, process_children,
  on_signal, on_scrubber_timeout, on_ping, turn,
}
use icmond.Datalogger.Turns.{
  Reaps, IsQuiet, IsCalm, IsTimed, Listens, Turned, IsRunning, HasEnded, reaped, polled, none_,
  other, no_child,
}

pub process_scrubber-HasEnded :
    (pid : ℤ) (late : Bool) (status : WaitStatus) (stdout : Bytes) (s : Logger)
    → IsRunning pid late s
    → HasEnded pid late status stdout (process_scrubber status stdout s)
      × ((process_scrubber status stdout s).modem ≡ s.modem)
      × ((process_scrubber status stdout s).inet ≡ s.inet)
unfolding process_scrubber set_flag
process_scrubber-HasEnded pid late (exit_code code) stdout s r = elim (Bool-cases (code == 0)) [
  | inl good ↦ rw good (
    record {
      no_scrubber = refl;
      late_is = r.late_is;
      buffer_is = refl;
      no_inetping = r.no_inetping;
      no_modemping = r.no_modemping;
      value_is = rw good r.value_is;
      killed_is = r.killed_is;
    },
    refl,
    refl,
  )
  | inr bad ↦ rw bad (
    record {
      no_scrubber = refl;
      late_is = r.late_is;
      buffer_is = refl;
      no_inetping = r.no_inetping;
      no_modemping = r.no_modemping;
      value_is = rw (bad, r.value_is) refl;
      killed_is = r.killed_is;
    },
    refl,
    refl,
  )
]
process_scrubber-HasEnded pid true (signal_number number) stdout s r = (
  record {
    no_scrubber = refl;
    late_is = r.late_is;
    buffer_is = r.buffer_is;
    no_inetping = r.no_inetping;
    no_modemping = r.no_modemping;
    value_is = rw (r.late_is, r.value_is) refl;
    killed_is = r.killed_is;
  },
  refl,
  refl,
)
process_scrubber-HasEnded pid false (signal_number number) stdout s r = (
  record {
    no_scrubber = refl;
    late_is = r.late_is;
    buffer_is = r.buffer_is;
    no_inetping = r.no_inetping;
    no_modemping = r.no_modemping;
    value_is = rw (r.late_is, r.value_is) refl;
    killed_is = r.killed_is;
  },
  refl,
  refl,
)
process_scrubber-HasEnded pid late neither stdout s r = (
  record {
    no_scrubber = refl;
    late_is = r.late_is;
    buffer_is = r.buffer_is;
    no_inetping = r.no_inetping;
    no_modemping = r.no_modemping;
    value_is = rw r.value_is refl;
    killed_is = r.killed_is;
  },
  refl,
  refl,
)

pub process_children-reaped :
    (pid : ℤ) (late : Bool) (status : WaitStatus) (stdout : Bytes) (children : List Child)
    (s : Logger)
    → ltb_ℤ (pos 0) pid ≡ true
    → Reaps pid status stdout children
    → IsRunning pid late s
    → process_children children s ≡ ok (process_scrubber status stdout s)
unfolding process_children process_child
process_children-reaped pid late status stdout _ s positive reaped r =
    let itself : eqb_ℤ pid s.scrubber_pid ≡ true = rw r.runs (ground arith) in rw itself refl
process_children-reaped pid late status stdout _ s positive (polled more) r =
    let other : eqb_ℤ (pos 0) s.scrubber_pid ≡ false = rw r.runs (ground arith) in
    let ping : eqb_ℤ (pos 0) s.inetping_pid ≡ true = rw r.no_inetping refl in
    let polled_state = record s { inetping_pid = pos 0 } in
    rw (other, ping)
      (process_children-reaped pid late status stdout _ polled_state positive more (record {
        runs = r.runs;
        armed = r.armed;
        late_is = r.late_is;
        buffer_is = r.buffer_is;
        no_inetping = refl;
        no_modemping = r.no_modemping;
        value_is = r.value_is;
        killed_is = r.killed_is;
      })
        ∙ ap (λ z. ok (process_scrubber status stdout (record s { inetping_pid = z })))
            (sym r.no_inetping))

pub on_signal-quiet : (signal : Signal) (s : Logger) → IsQuiet signal → on_signal signal s ≡ ok s
unfolding on_signal process_children
on_signal-quiet _ s none_ = refl
on_signal-quiet _ s other = refl
on_signal-quiet _ s no_child = refl

module _ (acknowledge : Bool → Run Bool) (one_shot : acknowledge true ≡ ok false) where
  on_ping-Listens :
      (reply expired received : Bool) (now : Timespec) (ping : Icmp × Bool)
      → received ≡ true
      → reply && expired ≡ false
      → IsTimed ping
      → Returns
          (Listens (reply || expired) ping)
          (on_ping acknowledge reply expired now received ping)
  unfolding on_ping icmp_receive icmp_cancel
  on_ping-Listens true true received now (icmp, armed) heard once timed = absurd (cc)
  on_ping-Listens true false received now (icmp, armed) heard once timed =
      elim (Bool-cases icmp.sent_and_listening) [
        | inr off ↦ rw off (returns _ (sym off ∙ timed, refl))
        | inl on ↦ rw (on, heard) (returns _ (refl, refl))
      ]
  on_ping-Listens false true received now (icmp, armed) heard once timed =
      elim (Bool-cases icmp.sent_and_listening) [
        | inr off ↦ rw off (returns _ (sym off ∙ timed, refl))
        | inl on ↦
            let armed_ : armed ≡ true = sym timed ∙ on in
            rw (on, armed_, one_shot) (returns _ (refl, refl))
      ]
  on_ping-Listens false false received now (icmp, armed) heard once timed =
      returns (icmp, armed) (timed, ground arith)

  pub turn-Turned :
      (t : Turn) (s s1 s2 : Logger)
      → IsCalm t
      → on_signal t.signal s ≡ ok s1
      → on_scrubber_timeout acknowledge t.scrubber_expired s1 ≡ ok s2
      → IsTimed s2.modem
      → IsTimed s2.inet
      → Returns (Turned t s2) (turn acknowledge t s)
  unfolding turn
  turn-Turned t s s1 s2 calm signal timeout modem_timed inet_timed =
      rw (calm.selects, signal, timeout)
        (Returns-bind
          (on_ping-Listens t.modem_reply t.modem_expired t.modem_received t.modem_time s2.modem
            calm.modem_receives calm.modem_once modem_timed)
          λ modem m.
            Returns-bind
              (on_ping-Listens t.inet_reply t.inet_expired t.inet_received t.inet_time s2.inet
                calm.inet_receives calm.inet_once inet_timed)
              λ inet i. returns _ record {
                modem = modem;
                inet = inet;
                same = refl;
                modem_listens = m;
                inet_listens = i;
              })
