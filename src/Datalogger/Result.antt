-- ===== src/Datalogger/Result.antt =====
-- What datalogger() returns and stores.
use icmond.Prelude.{
  ℕ, suc, ◌+◌, ◌≡◌, refl, ◌∙◌, ap, ◌⊎◌, inl, inr, Bool, true, false, not, ◌&&◌, ◌==◌, if◌then◌else◌,
  List, [], ◌∷◌, Option, none, some, map, length, ℤ, pos, ltb_ℤ, eqb_ℤ, Run, ok, ◌>>=◌, Returns,
  returns, Bool-cases, Option-cases, fault, arith,
}
use icmond.EventTypes.{Bytes}
use icmond.Daemon.{WaitStatus, exit_code, signal_number, neither}
use icmond.KeyVal.{keyval_create, keyval_nvalues}
use icmond.KeyVal.Create.{keyval_create_correct}
use icmond.Ping.{Icmp, icmp_send}
use icmond.Datalogger.{
  Logger, Startup, Turn, set_flag, sqlite3_error, flag_scrubber_dataerror, start_logger,
}
use icmond.Datalogger.Turns.{
  Runs, outcome, written, some_turn, modem_answer, inet_answer, IsRunning,
}
use icmond.Datalogger.Loop.{Pings, Left, main_loop-Left}
use icmond.Datalogger.Finish.{DatabaseRecord, values_of, line_data, null_values, finish, datalogger}

-- Every call before the main loop works.
pub record Starts (s : Startup) : Type 0 where
  pub capable : s.capable ≡ true
  pub raw_capable : s.raw_capable ≡ true
  pub timer_created : s.timer_created ≡ true
  pub masked : s.masked ≡ true
  pub signalfd_created : s.signalfd_created ≡ true
  pub modem : Icmp
  pub modem_prepared : s.modem_prepared ≡ ok modem
  pub inet : Icmp
  pub inet_prepared : s.inet_prepared ≡ ok inet
  pub in_parent : ltb_ℤ (pos 0) s.forked ≡ true
  pub inet_sent : s.inet_sent ≡ true
  pub modem_sent : s.modem_sent ≡ true

start_logger-IsRunning :
    (s : Startup) (turns : List Turn)
    → Starts s
    → some_turn modem_answer turns ≡ true
    → some_turn inet_answer turns ≡ true
    → Returns (λ l. IsRunning s.forked false l × Pings turns l) (start_logger s)
unfolding start_logger icmp_send
start_logger-IsRunning s turns w modem inet =
    rw
      (
        w.capable, w.raw_capable, w.timer_created, w.masked, w.signalfd_created, w.modem_prepared,
        w.inet_prepared, w.in_parent, w.inet_sent, w.modem_sent,
      )
      (returns _ (
        record {
          runs = refl;
          armed = refl;
          late_is = refl;
          buffer_is = refl;
          no_inetping = refl;
          no_modemping = refl;
          value_is = refl;
          killed_is = refl;
        },
        record {
          modem_timed = refl;
          inet_timed = refl;
          modem_answered = rw modem refl;
          inet_answered = rw inet refl;
        },
      ))

keyval_create-Returns : (s : Bytes) → (kv : Option (List Bytes)) × (keyval_create (some s) ≡ ok kv)
keyval_create-Returns s = elim (keyval_create_correct s) [
  | inl (many, null) ↦ (none, null)
  | inr (one, (key, list, splits, closed, run)) ↦ (_, run)
]

outcome-cases :
    (late : Bool) (status : WaitStatus)
    → (outcome late status ≡ 0) ⊎ ((outcome late status ≡ 32) ⊎ (outcome late status ≡ 64))
outcome-cases late (exit_code code) = ground arith
outcome-cases late (signal_number number) = ground arith
outcome-cases late neither = inr (inr refl)

length-map {ℓ ν} :
    {A : Type ℓ} {B : Type ν} (f : A → B) (xs : List A) → length (map f xs) ≡ length xs
length-map f [] = refl
length-map f (x ∷ xs) = ap suc (length-map f xs)

twenty_values :
    (kv : Option (List Bytes)) → (keyval_nvalues kv == 20) ≡ true → length (values_of kv) ≡ 20
unfolding keyval_nvalues
twenty_values none h = ground arith
twenty_values (some []) h = ground arith
twenty_values (some (key ∷ values)) h = ground arith

-- The return value has one bit for the end of the scrubber, one for its data, and one for the insert.
flags_apart :
    (v : ℕ) (bad inserted : Bool)
    → (v ≡ 0) ⊎ ((v ≡ 32) ⊎ (v ≡ 64))
    → let value = if bad then set_flag flag_scrubber_dataerror v else v in
      (if inserted then value else set_flag sqlite3_error value)
      ≡ v + (if bad then 128 else 0) + (if inserted then 0 else 2)
unfolding set_flag
flags_apart v true true (inl e) = rw e refl
flags_apart v true false (inl e) = rw e refl
flags_apart v false true (inl e) = rw e refl
flags_apart v false false (inl e) = rw e refl
flags_apart v true true (inr (inl e)) = rw e refl
flags_apart v true false (inr (inl e)) = rw e refl
flags_apart v false true (inr (inl e)) = rw e refl
flags_apart v false false (inr (inl e)) = rw e refl
flags_apart v true true (inr (inr e)) = rw e refl
flags_apart v true false (inr (inr e)) = rw e refl
flags_apart v false true (inr (inr e)) = rw e refl
flags_apart v false false (inr (inr e)) = rw e refl

module _ {ℓ} (Double : Type ℓ) (null_value : Double) (atof : Bytes → Double)
    (rounded_ms : ℤ → Double) (insert : Bytes → DatabaseRecord Double → ℤ) where
  -- What is stored of the line, and the return value: `kv` is what keyval_create() makes of the output.
  pub record IsStored (timed_out : Bool) (status : WaitStatus) (stdout datafile : Bytes)
      (logtime : ℤ) (rc : ℕ) (dbrec : DatabaseRecord Double) : Type ℓ where
    pub kv : Option (List Bytes)
    pub parsed : keyval_create (some (written status stdout)) ≡ ok kv
    pub time_is : dbrec.timestamp ≡ logtime
    pub values_are : dbrec.line_values ≡ (
        if not timed_out && keyval_nvalues kv == 20
        then map atof (values_of kv)
        else null_values Double null_value atof rounded_ms insert)
    pub twenty : length dbrec.line_values ≡ 20
    pub result_is :
        rc
        ≡ outcome timed_out status
          + (if not timed_out && not (keyval_nvalues kv == 20) then 128 else 0)
          + (if eqb_ℤ (insert datafile dbrec) (pos 0) then 0 else 2)

  -- How datalogger() ends: with a record, or, where the scrubber was in time and its output is one of
  -- keys and values but not of twenty, with a second free() of what keyval_create() returned.
  pub data Logged (timed_out : Bool) (status : WaitStatus) (stdout datafile : Bytes) (logtime : ℤ)
      : Run (ℕ × DatabaseRecord Double) → Type ℓ where
    stored :
        {rc : ℕ} {dbrec : DatabaseRecord Double}
        → IsStored timed_out status stdout datafile logtime rc dbrec
        → Logged timed_out status stdout datafile logtime (ok (rc, dbrec))
    freed_twice :
        {kv : List Bytes}
        → timed_out ≡ false
        → keyval_create (some (written status stdout)) ≡ ok (some kv)
        → (keyval_nvalues (some kv) == 20) ≡ false
        → Logged timed_out status stdout datafile logtime fault

  finish-Logged :
      (pid : ℤ) (timed_out : Bool) (status : WaitStatus) (stdout datafile : Bytes) (logtime : ℤ)
      (s : Logger)
      → Left pid timed_out status stdout s
      → Logged timed_out status stdout datafile logtime
          (finish Double null_value atof rounded_ms insert logtime datafile s)
  unfolding finish line_data keyval_nvalues
  finish-Logged pid true status stdout datafile logtime s left =
      let (kv, run) = keyval_create-Returns (written status stdout) in
      rw left.ended.late_is (
        stored record {
          kv = kv;
          parsed = run;
          time_is = refl;
          values_are = refl;
          twenty = refl;
          result_is = rw left.ended.value_is (flags_apart _ false _ (outcome-cases true status));
        })
  finish-Logged pid false status stdout datafile logtime s left =
      let (kv, run) = keyval_create-Returns (written status stdout) in
      elim (Option-cases kv) [
        | inl null ↦
            let run' = run ∙ ap ok null in
            rw (left.ended.late_is, left.ended.buffer_is, run')
              (stored record {
                kv = none;
                parsed = run';
                time_is = refl;
                values_are = refl;
                twenty = refl;
                result_is =
                    rw left.ended.value_is (flags_apart _ true _ (outcome-cases false status));
              })
        | inr (strings, there) ↦
            let run' = run ∙ ap ok there in
            elim (Bool-cases (keyval_nvalues (some strings) == 20)) [
              | inl good ↦
                  rw (left.ended.late_is, left.ended.buffer_is, run', good)
                    (stored record {
                      kv = some strings;
                      parsed = run';
                      time_is = refl;
                      values_are = rw good refl;
                      twenty =
                          length-map atof (values_of (some strings))
                          ∙ twenty_values (some strings) good;
                      result_is =
                          rw (good, left.ended.value_is)
                            (flags_apart _ false _ (outcome-cases false status));
                    })
              | inr bad ↦
                  rw (left.ended.late_is, left.ended.buffer_is, run', bad)
                    (freed_twice refl run' bad)
            ]
      ]

  Logged-bind :
      {timed_out : Bool} {status : WaitStatus} {stdout datafile : Bytes} {logtime : ℤ} {A : Type 0}
      {P : A → Type 0} {call : Run A} {after : A → Run (ℕ × DatabaseRecord Double)}
      → Returns P call
      → ((x : A) → P x → Logged timed_out status stdout datafile logtime (after x))
      → Logged timed_out status stdout datafile logtime (call >>= after)
  Logged-bind (x, end, holds) second = rw end (second x holds)

  -- datalogger(), where the calls before the main loop work and the timers expire once, in turns in which no
  -- call fails, the scrubber ends with a status and an output, before its timeout or behind it, and each of
  -- the two pings gets a reply or its timeout, though not both in the same turn, leaves its main loop. It
  -- frees the strings of the output twice if the scrubber was in time and keyval_create() finds strings in
  -- the output, but not twenty values. If not, it returns: the record has the time and twenty values, which
  -- are those of the output if there are twenty and there was no timeout, and null values if not; and the
  -- result tells the end of the scrubber, an output without twenty values, and an insert that failed, in
  -- separate bits, so that two bits of the scrubber are set where it fails and its output has no twenty values.
  pub datalogger_correct :
      (acknowledge : Bool → Run Bool) (startup : Startup) (turns : List Turn) (timed_out : Bool)
      (status : WaitStatus) (stdout datafile : Bytes) (logtime : ℤ)
      → acknowledge true ≡ ok false
      → Starts startup
      → Runs startup.forked status stdout timed_out false turns
      → some_turn modem_answer turns ≡ true
      → some_turn inet_answer turns ≡ true
      → Logged timed_out status stdout datafile logtime (
          datalogger Double null_value atof rounded_ms insert acknowledge startup turns logtime
            datafile)
  unfolding datalogger
  datalogger_correct acknowledge startup turns timed_out status stdout datafile logtime one_shot
        works runs modem inet =
      Logged-bind (start_logger-IsRunning startup turns works modem inet) λ s (running, pings).
        Logged-bind
          (main_loop-Left acknowledge one_shot startup.forked status stdout works.in_parent turns s
            runs running pings)
          λ ended left.
            finish-Logged startup.forked timed_out status stdout datafile logtime ended left
