-- ===== src/Text/Trim.antt =====
-- A string without the white space at its two ends, and the C loops that find these ends.
use icmond.Prelude.{
  ℕ, zero, suc, ◌≤◌, ◌<◌, ◌≡◌, refl, ap, ◌∙◌, Bool, true, false, not, ◌&&◌, ltb, if◌then◌else◌, [],
  ◌∷◌, ◌++◌, none, some, arith, length, get_elem?, Bool-cases, inl, inr,
}
use icmond.EventTypes.{Bytes}
use icmond.Text.{is_space, is_nonempty}

abbrev pub take : ℕ → Bytes → Bytes
take zero s = []
take (suc n) [] = []
take (suc n) (c ∷ s) = c ∷ take n s

unfoldable pub trim_front : Bytes → Bytes
trim_front [] = []
trim_front (c ∷ s) = let rest = trim_front s in if is_space c then rest else c ∷ s

unfoldable pub trim_end : Bytes → Bytes
trim_end [] = []
trim_end (c ∷ s) =
    let rest = trim_end s in if is_space c && not (is_nonempty rest) then [] else c ∷ rest

unfoldable pub trim : Bytes → Bytes
unfolding trim_end trim_front
trim s = trim_end (trim_front s)

-- Whether the byte at an index is white space; there is none past the end.
abbrev pub space_at : Bytes → ℕ → Bool
space_at s i = elim (get_elem? s i) [ none ↦ false | some c ↦ is_space c ]

-- `do end--; while (end > begin && isspace(*end)); end++`, and `while (ptr > s && isspace(*ptr))`
-- with `ptr` one before `end`: `end` counts from `begin`.
unfoldable pub back : Bytes → ℕ → ℕ
back s zero = zero
back s (suc e) = let shorter = back s e in if ltb 0 e && space_at s e then shorter else suc e

-- A string that does not begin with white space.
abbrev pub IsFlush : Bytes → Type 0
IsFlush [] = Unit
IsFlush (c ∷ s) = is_space c ≡ false

nonempty-concat : (s : Bytes) (c : ℕ) → is_nonempty (s ++ c ∷ []) ≡ true
nonempty-concat [] c = refl
nonempty-concat (a ∷ s) c = refl

pub trim_end-concat :
    (s : Bytes) (c : ℕ) → trim_end (s ++ c ∷ []) ≡ (if is_space c then trim_end s else s ++ c ∷ [])
unfolding trim_end
trim_end-concat [] c = ground arith
trim_end-concat (a ∷ s) c = elim (Bool-cases (is_space c)) [
  | inl space ↦ rw (trim_end-concat s c, space)
  | inr other ↦ rw (trim_end-concat s c, other) (ground (arith, nonempty-concat s c))
]

take-suc :
    (s : Bytes) (e : ℕ)
    → e < length s
    → (c : ℕ) × (get_elem? s e ≡ some c) × (take (suc e) s ≡ take e s ++ c ∷ [])
take-suc [] e h = absurd (omega arith)
take-suc (a ∷ s) zero h = (a, refl, refl)
take-suc (a ∷ s) (suc e) h = let (c, at, t) = take-suc s e (omega arith) in (c, at, ap (◌∷◌ a) t)

first_flush : (s : Bytes) (c : ℕ) → IsFlush s → get_elem? s 0 ≡ some c → is_space c ≡ false
first_flush [] c f h = cc
first_flush (a ∷ s) c f h = ground arith

-- The loop stops behind the last byte that is not white space.
pub take-back :
    (s : Bytes) (e : ℕ) → e ≤ length s → IsFlush s → take (back s e) s ≡ trim_end (take e s)
unfolding back
take-back s zero h f = unfold trim_end in refl
take-back s (suc e) h f =
    let (c, at, t) = take-suc s e h in
    let ih = take-back s e (omega arith) f in
    let cut = ap trim_end t ∙ trim_end-concat (take e s) c in
    elim (Bool-cases (is_space c)) [
      | inl space ↦ ground (arith, first_flush s c f)
      | inr other ↦ ground arith
    ]
