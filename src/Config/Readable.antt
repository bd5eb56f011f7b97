-- ===== src/Config/Readable.antt =====
-- The arguments that cfg_read_argv() can read, and the keyval_t that it makes of them.
use icmond.Prelude.{
  ◌≤◌, ◌≡◌, sym, ◌∙◌, Bool, true, false, List, Option, none, some, length, ok, Returns, inl, inr,
  ◌⊎◌,
}
use icmond.EventTypes.{Bytes}
use icmond.KeyVal.{keyval_create, remove_comments, drop}
use icmond.KeyVal.Fields.{is_closed}
use icmond.KeyVal.Create.{equals, keyval_create_correct}
use icmond.KeyVal.Values.{HasValue, keyval_create-HasValue}
use icmond.Config.Lines.{max_filename_len}
use icmond.Config.Argv.{CommandOption, interval, timeout, options, option_of}

abbrev pub is_number : CommandOption → Bool
is_number interval = true
is_number timeout = true
is_number _ = false

-- An argument that cfg_read_argv() can read: no escape is pending at its end, a file name in it fits, and
-- an option for a number has exactly one unescaped `=`.
pub record IsReadable (arg : Bytes) : Type 0 where
  pub closed : is_closed false arg ≡ true
  pub short : length (drop 10 arg) ≤ max_filename_len
  pub one_equal :
      (is_number (option_of arg options) ≡ false) ⊎ (equals false (remove_comments false arg) ≡ 1)

-- The keyval_t of an option for a number is not NULL.
abbrev pub Numbered : CommandOption → Option (List Bytes) → Type 0
Numbered option none = is_number option ≡ false
Numbered option (some kv) = Unit

-- keyval_create() of a readable argument.
pub readable_keyval :
    (arg : Bytes)
    → IsReadable arg
    → Returns (λ kv. HasValue kv × Numbered (option_of arg options) kv) (keyval_create (some arg))
readable_keyval arg r =
    let (kv, run, v) = keyval_create-HasValue arg r.closed in (kv, run, (v, numbered kv run))
  where
    numbered :
        (kv : Option (List Bytes))
        → keyval_create (some arg) ≡ ok kv
        → Numbered (option_of arg options) kv
    numbered (some _) run = tt
    numbered none run = elim r.one_equal [
      | inl other ↦ other
      | inr one ↦ elim (keyval_create_correct arg) [
        | inl (many, _) ↦ absurd (many one)
        | inr (_, (key, list, _, _, found)) ↦ absurd (bad (sym run ∙ found))
      ]
    ]
      where
        bad : {strings : List Bytes} → (ok none ≡ ok (some strings)) → ⊥
        bad e = cc
