-- ===== src/KeyVal/Fields.antt =====
-- What a list of values is, without pointers: the parts between unescaped delimiters. The third
-- scan of __getkeyval() yields them trimmed.
use mathlib.Core.List.{append-nil, append_assoc}
use icmond.Prelude.{
  ℕ, ◌+◌, ◌≡◌, refl, ap, ◌∙◌, Bool, true, false, not, ◌&&◌, ◌==◌, if◌then◌else◌, List, [], ◌∷◌,
  ◌++◌, map, arith, length, length-append, ok, ◌>>=◌, Bool-cases, inl, inr,
}
use icmond.EventTypes.{Bytes}
use icmond.Text.{is_space, is_delim, backslash}
use icmond.Text.Trim.{trim}
use icmond.KeyVal.{trimcpy, scan_values}
use icmond.KeyVal.TrimCopy.{trimcpy-trim}

-- The first part of a text, and the others; the flag says that an escape is pending.
unfoldable pub split : Bool → Bytes → Bytes × List Bytes
split f_escape [] = ([], [])
split f_escape (c ∷ s) =
    let (first, others) = split (c == backslash && not f_escape) s in
    if is_delim c && not f_escape then ([], first ∷ others) else (c ∷ first, others)

-- Whether a text ends with no escape pending.
unfoldable pub is_closed : Bool → Bytes → Bool
is_closed f_escape [] = not f_escape
is_closed f_escape (c ∷ s) = is_closed (c == backslash && not f_escape) s

-- The parts that count: all, or all but the last.
abbrev pub complete : Bool → Bytes → List Bytes → List Bytes
complete true first others = first ∷ others
complete false first [] = []
complete false first (second ∷ others) = first ∷ complete false second others

-- The values of a text: its parts, less the last one where an escape is pending at the end.
unfoldable pub fields : Bytes → List Bytes
unfolding split is_closed
fields s = let (first, others) = split false s in complete (is_closed false s) first others

delim_flush : (c : ℕ) → is_delim c ≡ true → (is_space c ≡ false) × ((c == backslash) ≡ false)
unfolding is_delim is_space
delim_flush c h = ground arith

complete-cons :
    (b : Bool) (x y : Bytes) (ys : List Bytes) → complete b x (y ∷ ys) ≡ x ∷ complete b y ys
complete-cons true x y ys = refl
complete-cons false x y ys = refl

-- The parts of `seg` followed by a text, where `seg` has no delimiter.
abbrev fields_after : Bytes → Bool → Bytes → List Bytes
fields_after seg f s = complete (is_closed f s) (seg ++ (split f s).0) (split f s).1

end_of_values :
    (seg : Bytes) (f : Bool)
    → scan_values (seg ++ []) (length seg) f [] ≡ ok (map trim (fields_after seg f []))
unfolding scan_values split is_closed
end_of_values seg true = refl
end_of_values seg false = rw (trimcpy-trim seg [] tt) (rw append-nil)

module _ (seg : Bytes) (f : Bool) (c : ℕ) (s : Bytes) where
  abbrev pending : Bool
  pending = c == backslash && not f

  module _ (ends : (is_delim c && not f) ≡ true) where
    scan_values-end :
        (v : Bytes) (n : ℕ)
        → scan_values v n f (c ∷ s)
          ≡ (trimcpy v n >>= λ x. scan_values s 0 pending s >>= λ xs. ok (x ∷ xs))
    unfolding scan_values
    scan_values-end v n = rw ends

    fields_after-end : fields_after seg f (c ∷ s) ≡ seg ∷ fields_after [] pending s
    unfolding split is_closed
    fields_after-end = rw ends (
        complete-cons (is_closed pending s) (seg ++ []) (split pending s).0 (split pending s).1
        ∙ ap (λ x. x ∷ fields_after [] pending s) (append-nil seg))

  module _ (inside : (is_delim c && not f) ≡ false) where
    scan_values-inside :
        (v : Bytes) (n : ℕ) → scan_values v n f (c ∷ s) ≡ scan_values v (n + 1) pending s
    unfolding scan_values
    scan_values-inside v n = rw inside

    fields_after-inside : fields_after seg f (c ∷ s) ≡ fields_after (seg ++ c ∷ []) pending s
    unfolding split is_closed
    fields_after-inside = rw inside (rw append_assoc)

-- The third scan, in the middle of a value.
pub scan_values-split :
    (seg : Bytes) (f : Bool) (s : Bytes)
    → scan_values (seg ++ s) (length seg) f s ≡ ok (map trim (fields_after seg f s))
scan_values-split seg f [] = end_of_values seg f
scan_values-split seg f (c ∷ s) =
    let f' = c == backslash && not f in
    elim (Bool-cases (is_delim c && not f)) [
      | inl ends ↦
          let space : is_space c ≡ false = ground (arith, delim_flush c) in
          let rest = scan_values-split [] f' s in
          scan_values-end seg f c s ends (seg ++ (c ∷ s)) (length seg)
          ∙ rw (trimcpy-trim seg (c ∷ s) space, rest, fields_after-end seg f c s ends)
      | inr inside ↦
          let rest = scan_values-split (seg ++ c ∷ []) f' s in
          let size : length (seg ++ c ∷ []) ≡ length seg + 1 = length-append seg (c ∷ []) in
          scan_values-inside seg f c s inside (seg ++ (c ∷ s)) (length seg)
          ∙ rw (← size, ← append_assoc seg (c ∷ []) s, rest, fields_after-inside seg f c s inside)
    ]

-- The third scan of __getkeyval() faults on no text, and yields its values, trimmed.
pub scan_values-fields : (s : Bytes) → scan_values s 0 false s ≡ ok (map trim (fields s))
unfolding fields
scan_values-fields s = scan_values-split [] false s
