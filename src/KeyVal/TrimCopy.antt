-- ===== src/KeyVal/TrimCopy.antt =====
-- __trimcpy() copies a part of a string without the white space at its ends.
use icmond.Prelude.{
  ℕ, ◌+◌, ◌-◌, ◌≤◌, ◌≡◌, refl, ap, ◌∙◌, false, [], ◌∷◌, ltb, if◌then◌else◌, fault, ◌++◌, arith,
  length, length-append, ok, Bool-cases, inl, inr,
}
use icmond.EventTypes.{Bytes}
use icmond.Text.{is_space, is_nonempty}
use icmond.Text.Trim.{take, trim, trim_front, trim_end, IsFlush, take-back, back}
use icmond.KeyVal.{skip_space, trimcpy}

length-trim_front : (s : Bytes) → length (trim_front s) ≤ length s
unfolding trim_front
length-trim_front [] = omega arith
length-trim_front (c ∷ s) = ground (arith, length-trim_front s)

trim_front-IsFlush : (s : Bytes) → IsFlush (trim_front s)
unfolding trim_front
trim_front-IsFlush [] = tt
trim_front-IsFlush (c ∷ s) = elim (Bool-cases (is_space c)) [
  | inl space ↦ rw space (trim_front-IsFlush s)
  | inr other ↦ rw other other
]

-- The scan over leading white space stops within the part, or at the byte behind it.
skip_space-append :
    (s rest : Bytes)
    → IsFlush rest
    → skip_space (s ++ rest) ≡ (length s - length (trim_front s), trim_front s ++ rest)
unfolding skip_space trim_front
skip_space-append [] [] f = refl
skip_space-append [] (c ∷ rest) f = ground arith
skip_space-append (c ∷ s) rest f = elim (Bool-cases (is_space c)) [
  | inl space ↦ rw space (ground (arith, skip_space-append s rest f, length-trim_front s))
  | inr other ↦ rw other (ap (λ n. (n, c ∷ (s ++ rest))) (omega arith))
]

take-append : (s t : Bytes) → take (length s) (s ++ t) ≡ s
take-append [] t = refl
take-append (c ∷ s) t = ap (◌∷◌ c) (take-append s t)

append-IsFlush : (s t : Bytes) → IsFlush s → IsFlush t → IsFlush (s ++ t)
append-IsFlush [] t f g = g
append-IsFlush (c ∷ s) t f g = f

copy_flush :
    (t rest : Bytes) (len k : ℕ)
    → IsFlush t
    → IsFlush rest
    → k + length t ≡ len
    → (if is_nonempty (t ++ rest)
        then (if ltb len k then fault else ok (take (back (t ++ rest) (len - k)) (t ++ rest)))
        else ok [])
      ≡ ok (trim_end t)
copy_flush [] [] len k f g e = unfold trim_end in refl
copy_flush [] (c ∷ rest) len k f g e =
    let same : len - k ≡ 0 = omega arith in
    let long : ltb len k ≡ false = ground arith in rw (long, same) (unfold trim_end back in refl)
copy_flush (c ∷ t) rest len k f g e =
    let s = (c ∷ t) ++ rest in
    let n = length (c ∷ t) in
    let same : len - k ≡ n = omega arith in
    let long : ltb len k ≡ false = ground arith in
    let cut = take-back s n (omega (arith, length-append (c ∷ t) rest)) f in
    rw (long, same) (ap ok (cut ∙ ap trim_end (take-append (c ∷ t) rest)))

-- __trimcpy() on a part of a string behind which no white space follows does not fault, and copies
-- the part without the white space at its two ends.
pub trimcpy-trim :
    (part rest : Bytes) → IsFlush rest → trimcpy (part ++ rest) (length part) ≡ ok (trim part)
unfolding trimcpy trim
trimcpy-trim part rest f =
    let t = trim_front part in
    rw (skip_space-append part rest f) (
      copy_flush t rest (length part) (length part - length t) (trim_front-IsFlush part) f
        (omega (arith, length-trim_front part)))
