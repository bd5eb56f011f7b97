-- ===== src/KeyVal/Create.antt =====
-- keyval_create(): what it returns for every text, and that it stays inside its block.
use native.Mathlib.Decide.{ℕ_discrete}
use mathlib.Core.List.{append_assoc}
use icmond.Prelude.{
  ℕ, ◌+◌, ◌≤◌, ◌≡◌, ◌≢◌, refl, sym, ap, Bool, true, false, not, ◌&&◌, ◌==◌, if◌then◌else◌, List, [],
  ◌∷◌, ◌++◌, map, none, some, arith, length, length-append, ok, Bool-cases, ◌⊎◌, inl, inr,
}
use icmond.EventTypes.{Bytes}
use icmond.Text.{is_delim, backslash, is_space}
use icmond.Text.Trim.{trim}
use icmond.KeyVal.{
  EqualScan, remove_comments, scan_equals, count_delims, drop, getkeyval, sanitize, sanitize_values,
  keyval_create,
}
use icmond.KeyVal.Fields.{is_closed, fields, scan_values-fields}
use icmond.KeyVal.TrimCopy.{trimcpy-trim}

-- The unescaped `=` of a text, up to an unescaped `#`.
unfoldable pub equals : Bool → Bytes → ℕ
equals f_escape [] = 0
equals f_escape (c ∷ s) =
    let n = equals (c == backslash && not f_escape) s in
    if c == b'#' && not f_escape then 0 else if c == b'=' && not f_escape then n + 1 else n

scan_equals-equals :
    (st : EqualScan) (f : Bool) (i : ℕ) (s : Bytes)
    → (scan_equals st f i s).f_delim ≡ st.f_delim + equals f s
unfolding scan_equals equals
scan_equals-equals st f i [] = omega arith
scan_equals-equals st f i (c ∷ s) =
    let f' = c == backslash && not f in
    ground (
      arith,
      scan_equals-equals st f' (i + 1) s,
      scan_equals-equals (record { f_delim = st.f_delim + 1; equalsign = i }) f' (i + 1) s,
    )

-- Where an `=` was found, from index `i` on: the text splits there.
record FoundAt (f : Bool) (i : ℕ) (s : Bytes) (at : ℕ) : Type 0 where
  before : Bytes
  after : Bytes
  splits : s ≡ before ++ (b'=' ∷ after)
  index : at ≡ i + length before
  unescaped : is_closed f before ≡ true
  delims : count_delims false after ≤ count_delims f s

FoundAt-cons :
    (f : Bool) (i : ℕ) (c : ℕ) (s : Bytes) (at : ℕ)
    → FoundAt (c == backslash && not f) (i + 1) s at
    → FoundAt f i (c ∷ s) at
unfolding count_delims is_closed
FoundAt-cons f i c s at w = record {
  before = c ∷ w.before;
  after = w.after;
  splits = ap (◌∷◌ c) w.splits;
  index = omega (arith, w.index);
  unescaped = w.unescaped;
  delims = ground (arith, w.delims);
}

FoundAt-here :
    (f : Bool) (i : ℕ) (c : ℕ) (s : Bytes) → (c == b'=' && not f) ≡ true → FoundAt f i (c ∷ s) i
unfolding count_delims is_delim is_closed
FoundAt-here f i c s h = record {
  before = [];
  after = s;
  splits = ap (λ d. d ∷ s) (ground arith);
  index = omega arith;
  unescaped = ground arith;
  delims = ground arith;
}

scan_equals-FoundAt :
    (st : EqualScan) (f : Bool) (i : ℕ) (s : Bytes)
    → (scan_equals st f i s ≡ st) ⊎ FoundAt f i s (scan_equals st f i s).equalsign
unfolding scan_equals
scan_equals-FoundAt st f i [] = inl refl
scan_equals-FoundAt st f i (c ∷ s) =
    let f' = c == backslash && not f in
    let here : EqualScan = record { f_delim = st.f_delim + 1; equalsign = i } in
    elim (Bool-cases (c == b'#' && not f)) [
      | inl comment ↦ rw comment (inl refl)
      | inr text ↦ elim (Bool-cases (c == b'=' && not f)) [
        | inl equal ↦ elim (scan_equals-FoundAt here f' (i + 1) s) [
          | inl last ↦ rw (text, equal, last) (inr (FoundAt-here f i c s equal))
          | inr later ↦ rw (text, equal) (inr (FoundAt-cons f i c s _ later))
        ]
        | inr other ↦ elim (scan_equals-FoundAt st f' (i + 1) s) [
          | inl no_more ↦ rw (text, other, no_more) (inl refl)
          | inr later ↦ rw (text, other) (inr (FoundAt-cons f i c s _ later))
        ]
      ]
    ]

drop-append : (s t : Bytes) (n : ℕ) → n ≡ length s → drop n (s ++ t) ≡ t
drop-append s t n e = rw e (go s)
  where
    go : (u : Bytes) → drop (length u) (u ++ t) ≡ t
    go [] = refl
    go (c ∷ u) = go u

pub drop-append_cons : (s t : Bytes) (c : ℕ) → drop (length s + 1) (s ++ (c ∷ t)) ≡ t
drop-append_cons s t c =
    rw (← append_assoc s (c ∷ []) t)
      (drop-append (s ++ c ∷ []) t (length s + 1) (sym (length-append s (c ∷ []))))

-- The strings that a line stands for, when it has exactly one unescaped `=`.
pub record Parsed (src : Bytes) (strings : List Bytes) : Type 0 where
  pub key : Bytes
  pub list : Bytes
  pub splits : src ≡ key ++ (b'=' ∷ list)
  pub unescaped : is_closed false key ≡ true
  pub strings_are : strings ≡ trim key ∷ map trim (fields list)
  pub delims : count_delims false list ≤ count_delims false src

pub getkeyval-Parsed :
    (src : Bytes)
    → equals false src ≡ 1
    → (strings : List Bytes) × (getkeyval src ≡ ok (some strings)) × Parsed src strings
unfolding getkeyval
getkeyval-Parsed src one =
    let start : EqualScan = record { f_delim = 0; equalsign = 0 } in
    let counted = scan_equals-equals start false 0 src in
    elim (scan_equals-FoundAt start false 0 src) [
      | inl same ↦ absurd (omega (arith, ap (λ (st : EqualScan). st.f_delim) same))
      | inr w ↦
          let n = (scan_equals start false 0 src).equalsign in
          let at : n ≡ length w.before = omega (arith, w.index) in
          let once : ((scan_equals start false 0 src).f_delim == 1) ≡ true = ground arith in
          (
            trim w.before ∷ map trim (fields w.after),
            rw (once, at)
                (rw w.splits (
                  rw (
                    drop-append_cons w.before w.after b'=',
                    trimcpy-trim w.before (b'=' ∷ w.after) (unfold is_space in refl),
                    scan_values-fields w.after,
                  ))),
            record {
              key = w.before;
              list = w.after;
              splits = w.splits;
              unescaped = w.unescaped;
              strings_are = refl;
              delims = w.delims;
            },
          )
    ]

pub getkeyval-none : (src : Bytes) → equals false src ≢ 1 → getkeyval src ≡ ok none
unfolding getkeyval
getkeyval-none src many =
    let start : EqualScan = record { f_delim = 0; equalsign = 0 } in
    let other : ((scan_equals start false 0 src).f_delim == 1) ≡ false =
      ground (arith, scan_equals-equals start false 0 src, many) in
    rw other

-- keyval_create() on a string always returns. With `text` the string up to an unescaped `#`, it
-- returns NULL unless `text` has exactly one unescaped `=`; then it returns the key before that `=`
-- and the values behind it, trimmed and without the escapes; the last value is missing where an escape
-- is pending at the end of `text`. Quotes have no meaning for it, and a value of no characters is an empty
-- string.
pub keyval_create_correct :
    (s : Bytes)
    → let text = remove_comments false s in
      ((equals false text ≢ 1) × (keyval_create (some s) ≡ ok none))
      ⊎ ((equals false text ≡ 1)
          × ((key list : Bytes) × (text ≡ key ++ (b'=' ∷ list))
              × (is_closed false key ≡ true)
              × (keyval_create (some s)
                  ≡ ok (some (map (sanitize false) (trim key ∷ map trim (fields list)))))))
unfolding keyval_create sanitize_values
keyval_create_correct s =
    let text = remove_comments false s in
    elim (ℕ_discrete (equals false text) 1) [
      | yes one ↦
          let (strings, run, p) = getkeyval-Parsed text one in
          inr (one, (p.key, p.list, p.splits, p.unescaped, rw (run, p.strings_are)))
      | no many ↦ inl (many, rw (getkeyval-none text many))
    ]
