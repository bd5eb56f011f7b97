-- ===== src/KeyVal/Bounds.antt =====
-- keyval.c: what __getkeyval() writes fits into the block that it asks for.
use native.Mathlib.Decide.{ℕ_discrete}
use icmond.Prelude.{
  ℕ, suc, ◌+◌, ◌≤◌, ◌≡◌, refl, sym, ap, ◌∙◌, Bool, true, false, not, ◌&&◌, ◌==◌, List, [], ◌∷◌, map,
  none, some, arith, length, length-append, ok,
}
use icmond.EventTypes.{Bytes}
use icmond.Text.{backslash}
use icmond.Text.Trim.{trim, trim_front, trim_end}
use icmond.KeyVal.{count_delims, pointer_slots, block_bytes, getkeyval}
use icmond.KeyVal.Fields.{split, is_closed, complete, fields}
use icmond.KeyVal.Create.{equals, Parsed, getkeyval-Parsed, getkeyval-none}

-- What a list of strings takes in a block, each with its NUL.
unfoldable pub bytes_taken : List Bytes → ℕ
bytes_taken [] = 0
bytes_taken (s ∷ ss) = length s + 1 + bytes_taken ss

length-trim : (s : Bytes) → length (trim s) ≤ length s
unfolding trim
length-trim s = omega (arith, front s, back s)
  where
    front : (u : Bytes) → length (trim_front u) ≤ length u
    front [] = omega arith
    front (c ∷ u) = ground (arith, front u)

    cut : (u : Bytes) → length (trim_end u) ≤ length u
    cut [] = omega arith
    cut (c ∷ u) = ground (arith, cut u)

    back : (u : Bytes) → length (trim_end (trim_front u)) ≤ length (trim_front u)
    back u = cut (trim_front u)

bytes_taken-trim : (ss : List Bytes) → bytes_taken (map trim ss) ≤ bytes_taken ss
unfolding bytes_taken
bytes_taken-trim [] = omega arith
bytes_taken-trim (s ∷ ss) = omega (arith, length-trim s, bytes_taken-trim ss)

bytes_taken-split :
    (f : Bool) (s : Bytes) → bytes_taken ((split f s).0 ∷ (split f s).1) ≡ length s + 1
unfolding bytes_taken split
bytes_taken-split f [] = omega arith
bytes_taken-split f (c ∷ s) = ground (arith, bytes_taken-split (c == backslash && not f) s)

length-split : (f : Bool) (s : Bytes) → length (split f s).1 ≡ count_delims f s
unfolding split count_delims
length-split f [] = refl
length-split f (c ∷ s) = ground (arith, length-split (c == backslash && not f) s)

complete-bounds :
    (b : Bool) (x : Bytes) (xs : List Bytes)
    → (bytes_taken (complete b x xs) ≤ bytes_taken (x ∷ xs))
      × (length (complete b x xs) ≤ length xs + 1)
unfolding bytes_taken
complete-bounds true x xs = omega arith
complete-bounds false x [] = omega arith
complete-bounds false x (y ∷ ys) = omega (arith, complete-bounds false y ys)

length-map-trim : (ss : List Bytes) → length (map trim ss) ≡ length ss
length-map-trim [] = refl
length-map-trim (s ∷ ss) = ap suc (length-map-trim ss)

fields_bounds :
    (s : Bytes)
    → (bytes_taken (fields s) ≤ length s + 1) × (length (fields s) ≤ count_delims false s + 1)
unfolding fields
fields_bounds s = omega (
  arith,
  complete-bounds (is_closed false s) (split false s).0 (split false s).1,
  bytes_taken-split false s,
  length-split false s,
)

Parsed-bounds :
    (src : Bytes) (strings : List Bytes)
    → Parsed src strings
    → (bytes_taken strings ≤ block_bytes src) × (length strings + 1 ≤ pointer_slots src)
unfolding block_bytes pointer_slots bytes_taken
Parsed-bounds src strings p =
    let size : length src ≡ length p.key + suc (length p.list) =
      ap length p.splits ∙ length-append p.key (b'=' ∷ p.list) in
    rw p.strings_are (
      omega (
        arith,
        length-trim p.key,
        bytes_taken-trim (fields p.list),
        fields_bounds p.list,
        length-map-trim (fields p.list),
        p.delims,
      ))

-- The strings that __getkeyval() writes, each with its NUL, fit into the bytes that it asks for, and
-- their pointers and the NULL behind them into the slots that it asks for.
pub getkeyval_bounds :
    (src : Bytes) {strings : List Bytes}
    → getkeyval src ≡ ok (some strings)
    → (bytes_taken strings ≤ block_bytes src) × (length strings + 1 ≤ pointer_slots src)
unfolding block_bytes pointer_slots
getkeyval_bounds src {strings} run = elim (ℕ_discrete (equals false src) 1) [
  | no many ↦ absurd (bad (sym (getkeyval-none src many) ∙ run))
  | yes one ↦
      let (found, run', p) = getkeyval-Parsed src one in
      let same : found ≡ strings = cc in rw (← same) (Parsed-bounds src found p)
]
  where
    bad : (ok none ≡ ok (some strings)) → ⊥
    bad e = cc
