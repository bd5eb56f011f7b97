-- ===== src/Tests/Logger.antt =====
-- Runs of the ping and of the worker process.
use icmond.Prelude.{
  ℕ, ◌≡◌, refl, Bool, true, false, if◌then◌else◌, List, [], ◌∷◌, pos, Run, ok, out_of_fuel, fault,
  arith, length, ◌>>=◌,
}
use icmond.EventTypes.{Bytes, codes}
use icmond.Daemon.{exit_code}
use icmond.Text.{is_space, is_delim}
use icmond.KeyVal.{remove_comments, scan_equals}
use icmond.Ping.{Icmp, checksum, low_byte, high_byte, no_time, Timespec}
use icmond.Ping.Checksum.{checksum_correct}
use icmond.Datalogger.{Child, Turn, Startup, no_signal, sigchld, read_string}
use icmond.Datalogger.Turns.{Runs, waits, ends, reaped, polled, nil, none_}
use icmond.Datalogger.Finish.{DatabaseRecord, datalogger}
use icmond.Datalogger.Result.{Starts, Logged, datalogger_correct}

-- An echo request with the process id 4660, and no payload.
checksum_correct_example :
    let check = checksum (8 ∷ (0 ∷ (0 ∷ (0 ∷ (52 ∷ (18 ∷ (1 ∷ (0 ∷ [])))))))) in
    checksum (8 ∷ (0 ∷ (low_byte check ∷ (high_byte check ∷ (52 ∷ (18 ∷ (1 ∷ (0 ∷ [])))))))) ≡ 0
checksum_correct_example =
    checksum_correct (8 ∷ (0 ∷ [])) (52 ∷ (18 ∷ (1 ∷ (0 ∷ [])))) refl
      (
        omega arith,
        (
          omega arith,
          (
            omega arith,
            (omega arith, (omega arith, (omega arith, (omega arith, (omega arith, tt))))),
          ),
        ),
      )
      (omega arith)

request : checksum (8 ∷ (0 ∷ (0 ∷ (0 ∷ (52 ∷ (18 ∷ (1 ∷ (0 ∷ [])))))))) ≡ 60866
unfolding checksum
request = refl

abbrev icmp : Icmp
icmp = record {
  sendfd = 6;
  recvfd = 7;
  timeoutfd = 8;
  timeoutspec = (1, 0);
  sent_and_listening = false;
  timesent = no_time;
  timerecv = no_time;
  packet_bytes = [];
}

abbrev at : ℕ → Timespec
at seconds = record { sec = pos seconds; nsec = pos 0 }

abbrev startup : Startup
startup = record {
  capable = true;
  raw_capable = true;
  timer_created = true;
  masked = true;
  signalfd_created = true;
  modem_prepared = ok icmp;
  inet_prepared = ok icmp;
  forked = pos 300;
  inet_time = at 10;
  inet_sent = true;
  modem_time = at 10;
  modem_sent = true;
}

-- Twenty values, as the scrubber prints them.
abbrev line : Bytes
line = codes "epc = 1,2,3,4,5,6,7,8,9,10,11,12,13,14,15,16,17,18,19,20"

-- Nothing happens in a turn but what is set.
abbrev idle : Turn
idle = record {
  selected = true;
  signal = no_signal;
  scrubber_expired = false;
  modem_reply = false;
  modem_expired = false;
  modem_time = at 11;
  modem_received = true;
  inet_reply = false;
  inet_expired = false;
  inet_time = at 12;
  inet_received = true;
}

abbrev child : Child
child = record { pid = pos 300; status = exit_code 0; stdout = line }

-- The modem answers, the scrubber ends, and the other ping gets its timeout.
abbrev turns : List Turn
turns =
    record idle { modem_reply = true }
    ∷ (record idle { signal = sigchld (child ∷ []) } ∷ (record idle { inet_expired = true } ∷ []))

abbrev one_shot : Bool → Run Bool
one_shot armed = if armed then ok false else out_of_fuel

startup-Starts : Starts startup
startup-Starts = record {
  capable = refl;
  raw_capable = refl;
  timer_created = refl;
  masked = refl;
  signalfd_created = refl;
  modem = icmp;
  modem_prepared = refl;
  inet = icmp;
  inet_prepared = refl;
  in_parent = refl;
  inet_sent = refl;
  modem_sent = refl;
}

turns-Runs : Runs (pos 300) (exit_code 0) line false false turns
turns-Runs =
    waits
      (record {
        selects = refl;
        modem_receives = refl;
        inet_receives = refl;
        modem_once = refl;
        inet_once = refl;
      })
      none_ refl
      (ends
        (record {
          selects = refl;
          modem_receives = refl;
          inet_receives = refl;
          modem_once = refl;
          inet_once = refl;
        })
        refl reaped refl
        (icmond.Datalogger.Turns.cons
          (record {
            selects = refl;
            modem_receives = refl;
            inet_receives = refl;
            modem_once = refl;
            inet_once = refl;
          })
          none_ refl nil))

datalogger_correct_example :
    Logged Bytes []
      (λ s. s)
      (λ ns. [])
      (λ file dbrec. pos 0)
      false
      (exit_code 0)
      line
      (codes "/srv/icmond.sqlite3")
      (pos 1480000000)
      (datalogger Bytes []
        (λ s. s)
        (λ ns. [])
        (λ file dbrec. pos 0)
        one_shot
        startup
        turns
        (pos 1480000000)
        (codes "/srv/icmond.sqlite3"))
datalogger_correct_example =
    datalogger_correct Bytes [] (λ s. s) (λ ns. []) (λ file dbrec. pos 0) one_shot startup turns
      false (exit_code 0) line (codes "/srv/icmond.sqlite3") (pos 1480000000) refl startup-Starts
      turns-Runs refl refl

abbrev summary : ℕ × DatabaseRecord Bytes → Run (ℕ × ℕ)
summary (rc, dbrec) = ok (rc, length dbrec.line_values)

logged :
    (datalogger Bytes []
        (λ s. s)
        (λ ns. [])
        (λ file dbrec. pos 0)
        one_shot
        startup
        turns
        (pos 1480000000)
        (codes "/srv/icmond.sqlite3")
      >>= summary)
    ≡ ok (0, 20)
unfolding datalogger is_space is_delim remove_comments scan_equals
logged = refl

-- The scrubber prints three values.
abbrev short_turns : List Turn
short_turns =
    record idle { modem_reply = true }
    ∷ (record idle { signal = sigchld (record child { stdout = codes "epc = 1,2,3" } ∷ []) }
        ∷ (record idle { inet_expired = true } ∷ []))

freed_twice :
    datalogger Bytes []
      (λ s. s)
      (λ ns. [])
      (λ file dbrec. pos 0)
      one_shot
      startup
      short_turns
      (pos 1480000000)
      (codes "/srv/icmond.sqlite3")
    ≡ fault
unfolding datalogger is_space is_delim remove_comments scan_equals
freed_twice = refl
