-- ===== src/KeyVal/RoundTrip.antt =====
-- keyval_create() reads back what keyval2str() writes.
use mathlib.Core.List.{append-nil}
use icmond.Prelude.{
  ℕ, suc, ◌+◌, ◌≡◌, refl, ap, ◌∙◌, Bool, true, false, not, ◌&&◌, ◌==◌, List, [], ◌∷◌, ◌++◌, map,
  some, arith, length, All, ok,
}
use icmond.EventTypes.{Bytes}
use icmond.Text.{is_delim, is_space, backslash}
use icmond.Text.Trim.{trim}
use icmond.KeyVal.{
  EqualScan, remove_comments, scan_equals, getkeyval, sanitize, sanitize_values, keyval_create,
  to_str, put_equal, keyval2str,
}
use icmond.KeyVal.Fields.{split, is_closed, fields, scan_values-fields}
use icmond.KeyVal.Create.{drop-append_cons}
use icmond.KeyVal.TrimCopy.{trimcpy-trim}

-- Bytes that mean nothing in a line but a list delimiter.
abbrev pub is_text : ℕ → Bool
is_text c = not (c == backslash) && not (c == b'#') && not (c == b'=')

abbrev pub is_plain : ℕ → Bool
is_plain c = is_text c && not (is_delim c)

-- A string without special bytes, and without white space at its ends.
pub record IsWord (s : Bytes) : Type 0 where
  pub plain : All (λ c. is_plain c ≡ true) s
  pub trimmed : trim s ≡ s

abbrev pub IsText : Bytes → Type 0
IsText s = All (λ c. is_text c ≡ true) s

plain-IsText : (s : Bytes) → All (λ c. is_plain c ≡ true) s → IsText s
plain-IsText [] h = tt
plain-IsText (c ∷ s) (h, t) = (ground arith, plain-IsText s t)

IsText-append : (s t : Bytes) → IsText s → IsText t → IsText (s ++ t)
IsText-append [] t h k = k
IsText-append (c ∷ s) t (h, h') k = (h, IsText-append s t h' k)

to_str-IsText : (ss : List Bytes) → All IsWord ss → IsText (to_str ss)
unfolding to_str
to_str-IsText [] h = tt
to_str-IsText (s ∷ []) (h, t) = plain-IsText s h.plain
to_str-IsText (s ∷ (u ∷ us)) (h, t) =
    IsText-append s (b',' ∷ to_str (u ∷ us)) (plain-IsText s h.plain)
      (refl, to_str-IsText (u ∷ us) t)

remove_comments-append :
    (s t : Bytes) → IsText s → remove_comments false (s ++ t) ≡ s ++ remove_comments false t
unfolding remove_comments
remove_comments-append [] t h = refl
remove_comments-append (c ∷ s) t (h, h') = ground (arith, remove_comments-append s t h')

scan_equals-append :
    (st : EqualScan) (i : ℕ) (s t : Bytes)
    → IsText s
    → scan_equals st false i (s ++ t) ≡ scan_equals st false (i + length s) t
unfolding scan_equals
scan_equals-append st i [] t h = let e : i + 0 ≡ i = omega arith in rw e
scan_equals-append st i (c ∷ s) t (h, h') =
    let e : i + suc (length s) ≡ i + 1 + length s = omega arith in
    rw e (ground (arith, scan_equals-append st (i + 1) s t h'))

scan_equals-IsText : (st : EqualScan) (i : ℕ) (s : Bytes) → IsText s → scan_equals st false i s ≡ st
unfolding scan_equals
scan_equals-IsText st i [] h = refl
scan_equals-IsText st i (c ∷ s) (h, h') = ground (arith, scan_equals-IsText st (i + 1) s h')

remove_comments-IsText : (s : Bytes) → IsText s → remove_comments false s ≡ s
unfolding remove_comments
remove_comments-IsText [] h = refl
remove_comments-IsText (c ∷ s) (h, h') = ground (arith, remove_comments-IsText s h')

is_closed-IsText : (s : Bytes) → IsText s → is_closed false s ≡ true
unfolding is_closed
is_closed-IsText [] h = refl
is_closed-IsText (c ∷ s) (h, h') = ground (arith, is_closed-IsText s h')

split-append :
    (s t : Bytes)
    → All (λ c. is_plain c ≡ true) s
    → split false (s ++ t) ≡ (s ++ (split false t).0, (split false t).1)
unfolding split
split-append [] t h = refl
split-append (c ∷ s) t (h, h') = ground (arith, split-append s t h')

sanitize-plain : (s : Bytes) → IsText s → sanitize false s ≡ s
unfolding sanitize
sanitize-plain [] h = refl
sanitize-plain (c ∷ s) (h, h') = ground (arith, sanitize-plain s h')

split-plain : (s : Bytes) → All (λ c. is_plain c ≡ true) s → split false s ≡ (s, [])
unfolding split
split-plain [] h = refl
split-plain (c ∷ s) (h, h') = ground (arith, split-plain s h')

split-comma : (t : Bytes) → split false (b',' ∷ t) ≡ ([], (split false t).0 ∷ (split false t).1)
unfolding split is_delim
split-comma t = refl

split-to_str :
    (s : Bytes) (ss : List Bytes) → All IsWord (s ∷ ss) → split false (to_str (s ∷ ss)) ≡ (s, ss)
unfolding to_str
split-to_str s [] (h, t) = split-plain s h.plain
split-to_str s (u ∷ us) (h, t) =
    split-append s (b',' ∷ to_str (u ∷ us)) h.plain
    ∙ rw (split-comma (to_str (u ∷ us)), split-to_str u us t) (ap (λ x. (x, u ∷ us)) (append-nil s))

fields-to_str :
    (s : Bytes) (ss : List Bytes) → All IsWord (s ∷ ss) → fields (to_str (s ∷ ss)) ≡ s ∷ ss
unfolding fields
fields-to_str s ss h =
    rw (split-to_str s ss h, is_closed-IsText (to_str (s ∷ ss)) (to_str-IsText (s ∷ ss) h))

sanitize-words : (ss : List Bytes) → All IsWord ss → map (sanitize false) (map trim ss) ≡ ss
sanitize-words [] h = refl
sanitize-words (s ∷ ss) (h, t) =
    rw (h.trimmed, sanitize-plain s (plain-IsText s h.plain), sanitize-words ss t)

put_equal-append : (s t : Bytes) (c : ℕ) → put_equal (length s) (s ++ (c ∷ t)) ≡ s ++ (b'=' ∷ t)
unfolding put_equal
put_equal-append [] t c = refl
put_equal-append (d ∷ s) t c = ap (◌∷◌ d) (put_equal-append s t c)

keyval2str-text :
    (key v : Bytes) (vs : List Bytes)
    → keyval2str (key ∷ (v ∷ vs)) ≡ key ++ (b'=' ∷ to_str (v ∷ vs))
unfolding keyval2str
keyval2str-text key v vs = put_equal-append key (to_str (v ∷ vs)) b','

module _ (key v : Bytes) (vs : List Bytes) (words : All IsWord (key ∷ (v ∷ vs))) where
  abbrev line : Bytes
  line = key ++ (b'=' ∷ to_str (v ∷ vs))

  abbrev start : EqualScan
  start = record { f_delim = 0; equalsign = 0 }

  list-IsText : IsText (to_str (v ∷ vs))
  list-IsText = to_str-IsText (v ∷ vs) words.1

  key-IsText : IsText key
  key-IsText = plain-IsText key words.0.plain

  equal_step :
      (n : ℕ) (t : Bytes)
      → IsText t
      → scan_equals start false n (b'=' ∷ t) ≡ record { f_delim = 1; equalsign = n }
  unfolding scan_equals
  equal_step n t h = scan_equals-IsText (record { f_delim = 1; equalsign = n }) (n + 1) t h

  line_scan : scan_equals start false 0 line ≡ record { f_delim = 1; equalsign = length key }
  line_scan =
      scan_equals-append start 0 key (b'=' ∷ to_str (v ∷ vs)) key-IsText
      ∙ (let e : 0 + length key ≡ length key = omega arith in
          rw e (equal_step (length key) (to_str (v ∷ vs)) list-IsText))

  line_parsed : getkeyval line ≡ ok (some (trim key ∷ map trim (v ∷ vs)))
  unfolding getkeyval
  line_parsed = rw line_scan (
      rw (
        drop-append_cons key (to_str (v ∷ vs)) b'=',
        trimcpy-trim key (b'=' ∷ to_str (v ∷ vs)) (unfold is_space in refl),
        scan_values-fields (to_str (v ∷ vs)),
        fields-to_str v vs words.1,
      ))

  comment_free : remove_comments false line ≡ line
  comment_free =
      remove_comments-append key (b'=' ∷ to_str (v ∷ vs)) key-IsText
      ∙ unfold remove_comments in
        ap (λ t. key ++ (b'=' ∷ t)) (remove_comments-IsText (to_str (v ∷ vs)) list-IsText)

-- A keyval_t of a key and at least one value, none of which has a special byte or white space at its
-- ends, is what keyval_create() makes of the line that keyval2str() writes for it.
pub keyval_create-keyval2str :
    (key v : Bytes) (vs : List Bytes)
    → All IsWord (key ∷ (v ∷ vs))
    → keyval_create (some (keyval2str (key ∷ (v ∷ vs)))) ≡ ok (some (key ∷ (v ∷ vs)))
unfolding keyval_create sanitize_values
keyval_create-keyval2str key v vs words =
    rw (keyval2str-text key v vs, comment_free key v vs words, line_parsed key v vs words)
      (ap (λ ss. ok (some ss)) (sanitize-words (key ∷ (v ∷ vs)) words))
