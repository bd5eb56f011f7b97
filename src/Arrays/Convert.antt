-- ===== src/Arrays/Convert.antt =====
-- str2arr() and arr2str(): lists in one string.
use mathlib.Core.List.{append-nil, append_assoc}
use icmond.Prelude.{
  ℕ, ◌+◌, ◌≤◌, ◌≡◌, refl, sym, ap, ap₂, ◌∙◌, ◌≢◌, Bool, true, false, if◌then◌else◌, List, [], ◌∷◌,
  ◌++◌, some, map, arith, length, length-append, All, Bool-cases, inl, inr,
}
use icmond.EventTypes.{Bytes}
use icmond.Text.{is_space, is_delim}
use icmond.Text.Trim.{take, trim, trim_front, trim_end, IsFlush, take-back}
use icmond.Arrays.{scan_list, trim_tail, str2arr, join, join_bytes, arr2str}

-- The first part of a list string, and the others: what stands between its delimiters.
unfoldable pub split : Bytes → Bytes × List Bytes
split [] = ([], [])
split (c ∷ s) =
    let (first, others) = split s in
    if is_delim c then ([], first ∷ others) else (c ∷ first, others)

take-length : (s : Bytes) → take (length s) s ≡ s
take-length [] = refl
take-length (c ∷ s) = ap (◌∷◌ c) (take-length s)

trim_tail-IsFlush : (s : Bytes) → IsFlush s → trim_tail s ≡ trim_end s
unfolding trim_tail
trim_tail-IsFlush s f = take-back s (length s) (omega arith) f ∙ ap trim_end (take-length s)

trim-IsFlush : (s : Bytes) → IsFlush s → trim s ≡ trim_end s
unfolding trim trim_front
trim-IsFlush [] f = refl
trim-IsFlush (c ∷ s) f = ap trim_end (front c s f)
  where
    front : (d : ℕ) (t : Bytes) → is_space d ≡ false → trim_front (d ∷ t) ≡ d ∷ t
    front d t g = rw g

trim-space : (c : ℕ) (s : Bytes) → is_space c ≡ true → trim (c ∷ s) ≡ trim s
unfolding trim trim_front
trim-space c s h = rw h

delim_not_space : (c : ℕ) → is_space c ≡ true → is_delim c ≡ false
unfolding is_space is_delim
delim_not_space c h = ground arith

-- What is left of the trimmed parts when the first of them has begun with `value`.
abbrev trimmed_after : Bytes → Bytes → List Bytes
trimmed_after value s = trim (value ++ (split s).0) ∷ map trim (split s).1

abbrev after_pass : Bytes → Bool → Bytes → List Bytes
after_pass value begun s = map trim_tail (scan_list value begun s)

trim_tail-trim : (value : Bytes) → IsFlush value → trim_tail value ≡ trim value
trim_tail-trim value f = trim_tail-IsFlush value f ∙ sym (trim-IsFlush value f)

module _ (c : ℕ) (s : Bytes) where
  module _ (ends : is_delim c ≡ true) where
    after_pass-delim :
        (value : Bytes) (begun : Bool)
        → after_pass value begun (c ∷ s) ≡ trim_tail value ∷ after_pass [] false s
    unfolding scan_list
    after_pass-delim value begun = rw ends

    trimmed_after-delim :
        (value : Bytes) → trimmed_after value (c ∷ s) ≡ trim value ∷ trimmed_after [] s
    unfolding split
    trimmed_after-delim value = rw ends (ap (λ x. trim x ∷ trimmed_after [] s) (append-nil value))

  module _ (inside : is_delim c ≡ false) where
    after_pass-begun :
        (value : Bytes) → after_pass value true (c ∷ s) ≡ after_pass (value ++ c ∷ []) true s
    unfolding scan_list
    after_pass-begun value = rw inside

    after_pass-space : is_space c ≡ true → after_pass [] false (c ∷ s) ≡ after_pass [] false s
    unfolding scan_list
    after_pass-space h = rw (inside, h)

    after_pass-start : is_space c ≡ false → after_pass [] false (c ∷ s) ≡ after_pass (c ∷ []) true s
    unfolding scan_list
    after_pass-start h = rw (inside, h)

    trimmed_after-inside :
        (value : Bytes) → trimmed_after value (c ∷ s) ≡ trimmed_after (value ++ c ∷ []) s
    unfolding split
    trimmed_after-inside value = rw inside (rw append_assoc)

    trimmed_after-space : is_space c ≡ true → trimmed_after [] (c ∷ s) ≡ trimmed_after [] s
    unfolding split
    trimmed_after-space h = rw inside (rw (trim-space c (split s).0 h))

-- What scan_list() and the final pass yield, at any point of the scan.
abbrev Scans : Bytes → Type 0
Scans s =
    ((value : Bytes) → IsFlush value → value ≢ [] → after_pass value true s ≡ trimmed_after value s)
    × (after_pass [] false s ≡ trimmed_after [] s)

scan_list-delim : (c : ℕ) (s : Bytes) → is_delim c ≡ true → Scans s → Scans (c ∷ s)
scan_list-delim c s ends (begun, blank) = (
  λ value f ne.
      after_pass-delim c s ends value true
      ∙ rw (trimmed_after-delim c s ends value, trim_tail-trim value f, blank),
  after_pass-delim c s ends [] false
      ∙ rw (trimmed_after-delim c s ends [], trim_tail-trim [] tt, blank),
)

grow-IsFlush : (value : Bytes) (c : ℕ) → IsFlush value → value ≢ [] → IsFlush (value ++ c ∷ [])
grow-IsFlush [] c f ne = absurd (ne refl)
grow-IsFlush (d ∷ value) c f ne = f

grow-ne : (value : Bytes) (c : ℕ) → value ++ c ∷ [] ≢ []
grow-ne [] c e = cc
grow-ne (d ∷ value) c e = cc

scan_list-inside : (c : ℕ) (s : Bytes) → is_delim c ≡ false → Scans s → Scans (c ∷ s)
scan_list-inside c s inside (begun, blank) = (
  λ value f ne.
      after_pass-begun c s inside value
      ∙ begun (value ++ c ∷ []) (grow-IsFlush value c f ne) (grow-ne value c)
      ∙ sym (trimmed_after-inside c s inside value),
  elim (Bool-cases (is_space c)) [
    | inl space ↦
        after_pass-space c s inside space ∙ blank ∙ sym (trimmed_after-space c s inside space)
    | inr other ↦
        after_pass-start c s inside other
        ∙ begun (c ∷ []) other (λ e. cc)
        ∙ sym (trimmed_after-inside c s inside [])
  ],
)

scan_list-split : (s : Bytes) → Scans s
unfolding scan_list split
scan_list-split [] = (
  λ value f ne. ap (λ x. x ∷ []) (trim_tail-trim value f ∙ ap trim (sym (append-nil value))),
  ap (λ x. x ∷ []) (trim_tail-trim [] tt),
)
scan_list-split (c ∷ s) = elim (Bool-cases (is_delim c)) [
  | inl ends ↦ scan_list-delim c s ends (scan_list-split s)
  | inr inside ↦ scan_list-inside c s inside (scan_list-split s)
]

-- str2arr() returns the parts of the string between its delimiters, each without the white space at
-- its two ends.
pub str2arr-split : (s : Bytes) → str2arr (some s) ≡ some (map trim ((split s).0 ∷ (split s).1))
unfolding str2arr
str2arr-split s = ap some ((scan_list-split s).1)

-- A string without delimiters, and without white space at its ends.
pub record IsItem (s : Bytes) : Type 0 where
  pub whole : All (λ c. is_delim c ≡ false) s
  pub trimmed : trim s ≡ s

split-append :
    (s t : Bytes)
    → All (λ c. is_delim c ≡ false) s
    → split (s ++ t) ≡ (s ++ (split t).0, (split t).1)
unfolding split
split-append [] t h = refl
split-append (c ∷ s) t (h, h') = ground (arith, split-append s t h')

split-whole : (s : Bytes) → All (λ c. is_delim c ≡ false) s → split s ≡ (s, [])
unfolding split
split-whole [] h = refl
split-whole (c ∷ s) (h, h') = ground (arith, split-whole s h')

split-comma : (t : Bytes) → split (b',' ∷ t) ≡ ([], (split t).0 ∷ (split t).1)
unfolding split is_delim
split-comma t = refl

split-join : (s : Bytes) (ss : List Bytes) → All IsItem (s ∷ ss) → split (join (s ∷ ss)) ≡ (s, ss)
unfolding join
split-join s [] (h, t) = split-whole s h.whole
split-join s (u ∷ us) (h, t) =
    split-append s (b',' ∷ join (u ∷ us)) h.whole
    ∙ rw (split-comma (join (u ∷ us)), split-join u us t) (ap (λ x. (x, u ∷ us)) (append-nil s))

map-trim-items : (ss : List Bytes) → All IsItem ss → map trim ss ≡ ss
map-trim-items [] h = refl
map-trim-items (s ∷ ss) (h, t) = ap₂ (λ x xs. x ∷ xs) h.trimmed (map-trim-items ss t)

-- An array of at least one string, none of which has a delimiter or white space at its ends, is what
-- str2arr() makes of the list that arr2str() writes for it.
pub str2arr-arr2str :
    (s : Bytes) (ss : List Bytes)
    → All IsItem (s ∷ ss)
    → str2arr (arr2str (some (s ∷ ss))) ≡ some (s ∷ ss)
unfolding arr2str
str2arr-arr2str s ss h =
    str2arr-split (join (s ∷ ss)) ∙ rw (split-join s ss h) (ap some (map-trim-items (s ∷ ss) h))

-- What arr2str() writes for an array, with its NUL, fits into the bytes that it asks for.
pub join-fits : (ss : List Bytes) → length (join ss) + 1 ≤ join_bytes ss
unfolding join join_bytes
join-fits [] = omega arith
join-fits (s ∷ []) = omega arith
join-fits (s ∷ (t ∷ ts)) = omega (arith, length-append s (b',' ∷ join (t ∷ ts)), join-fits (t ∷ ts))
