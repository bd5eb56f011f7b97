-- ===== src/Datalogger/Finish.antt =====
-- datalogger.c: the record that datalogger() makes behind its main loop, and what it returns.
use icmond.Prelude.{
  ℕ, Bool, ◌==◌, if◌then◌else◌, List, [], ◌∷◌, Option, none, some, map, ℤ, Run, ok, fault, ◌>>=◌,
  eqb_ℤ, pos,
}
use icmond.EventTypes.{Bytes}
use icmond.KeyVal.{keyval_create, keyval_nvalues}
use icmond.Ping.{icmp_getelapsed}
use icmond.Datalogger.{
  Logger, Turn, Startup, set_flag, sqlite3_error, flag_scrubber_dataerror, main_loop, start_logger,
}

-- databaserecord_t; the values of the lines are in the order of its members
pub record DatabaseRecord {ℓ} (Double : Type ℓ) : Type ℓ where
  pub timestamp : ℤ
  pub modemping_ms : Double
  pub inetping_ms : Double
  pub line_values : List Double

-- The values of a keyval_t, behind its key.
abbrev pub values_of : Option (List Bytes) → List Bytes
values_of none = []
values_of (some []) = []
values_of (some (key ∷ values)) = values

-- free(kv) twice, in the branch for malformed data and behind it: that is of no account for NULL, and a
-- `fault` for a block.
abbrev pub free_twice {ℓ} : {A : Type ℓ} → Option (List Bytes) → A → Run A
free_twice none result = ok result
free_twice (some kv) result = fault

-- `Double` is double, with DATABASE_DOUBLE_NULL_VALUE, atof(), and the milliseconds with two decimals of
-- a time in nanoseconds; `insert` is database_insert(); `datafile` is the file that the code picks.
module _ {ℓ} (Double : Type ℓ) (null_value : Double) (atof : Bytes → Double)
    (rounded_ms : ℤ → Double) (insert : Bytes → DatabaseRecord Double → ℤ) where
  -- the twenty assignments of the symbolic null value
  abbrev pub null_values : List Double
  null_values =
      null_value
      ∷ (null_value
          ∷ (null_value
              ∷ (null_value
                  ∷ (null_value
                      ∷ (null_value
                          ∷ (null_value
                              ∷ (null_value
                                  ∷ (null_value
                                      ∷ (null_value
                                          ∷ (null_value
                                              ∷ (null_value
                                                  ∷ (null_value
                                                      ∷ (null_value
                                                          ∷ (null_value
                                                            ∷ (null_value
                                                            ∷ (null_value
                                                            ∷ (null_value
                                                            ∷ (null_value
                                                            ∷ (null_value ∷ [])))))))))))))))))))

  -- "Line data": the values, and the return value
  unfoldable pub line_data : Logger → Run (List Double × ℕ)
  unfolding keyval_create keyval_nvalues set_flag
  line_data s =
      let parsed : Run (List Double × ℕ) = do
        kv ← keyval_create (some s.stdoutbuffer)
        let malformed : Run (List Double × ℕ) =
            free_twice kv (null_values, set_flag flag_scrubber_dataerror s.returnvalue)
        (if keyval_nvalues kv == 20 then ok (map atof (values_of kv), s.returnvalue) else malformed)
      in if s.killed_for_timeout then ok (null_values, s.returnvalue) else parsed

  -- "Determine insert target"
  abbrev pub insert_target : ℕ → Bytes → Bytes → Bytes
  insert_target tmpfs tmpfsfilename filename = if tmpfs == 0 then filename else tmpfsfilename

  -- datalogger(), behind its main loop: what it returns, and the record that it inserts
  unfoldable pub finish : ℤ → Bytes → Logger → Run (ℕ × DatabaseRecord Double)
  unfolding line_data icmp_getelapsed
  finish logtime datafile s = do
    (values, returnvalue) ← line_data s
    let dbrec : DatabaseRecord Double = record {
      timestamp = logtime;
      modemping_ms = rounded_ms (icmp_getelapsed s.modem.0);
      inetping_ms = rounded_ms (icmp_getelapsed s.inet.0);
      line_values = values;
    }
    ok (
      if eqb_ℤ (insert datafile dbrec) (pos 0)
          then returnvalue
          else set_flag sqlite3_error returnvalue,
      dbrec,
    )

  -- datalogger()
  unfoldable pub datalogger :
      (Bool → Run Bool) → Startup → List Turn → ℤ → Bytes → Run (ℕ × DatabaseRecord Double)
  unfolding start_logger main_loop finish
  datalogger acknowledge startup turns logtime datafile = do
    s ← start_logger startup
    ended ← main_loop acknowledge turns s
    finish logtime datafile ended
