-- ===== src/Arrays.antt =====
-- util.c: arrays of strings, which a NULL ends. Where an array is only read or built it is the list of
-- its strings; where it is written in place it is its cells.
pub mod Collapse
pub mod Convert
use icmond.Prelude.{
  ℕ, zero, suc, ◌+◌, Bool, true, false, not, ◌&&◌, ◌||◌, ◌==◌, if◌then◌else◌, update, List, [], ◌∷◌,
  ◌++◌, Option, none, some, map, length, Run, ok, out_of_fuel, ℤ, pos, negsuc,
}
use icmond.EventTypes.{Bytes}
use icmond.Text.{is_space, is_delim, is_nonempty, str_eq, str_case_eq}
use icmond.Text.Trim.{take, back}

-- The cells of an array of strings; `none` is NULL.
abbrev pub Cells : Type 0
Cells = ℕ → Option Bytes

-- The `for` of arrcollapse() and of keyval_remove_empty_values(), which differ in where they start
pub collapse_loop : ℕ → Cells → ℕ → ℕ → Run Cells
collapse_loop zero array valueidx writeidx = out_of_fuel
collapse_loop (suc fuel) array valueidx writeidx = elim (array valueidx) [
  | none ↦ ok array
  | some s ↦
      let moved =
        if not (valueidx == writeidx)
        then update (update array writeidx (array valueidx)) valueidx none
        else array in
      let keep = collapse_loop fuel moved (valueidx + 1) (writeidx + 1) in
      let discard = collapse_loop fuel (update array valueidx none) (valueidx + 1) writeidx in
      if is_nonempty s then keep else discard
]

-- arrcollapse(), with fuel for more cells than the array has
unfoldable pub arrcollapse : ℕ → Cells → Run Cells
arrcollapse fuel array = collapse_loop fuel array 0 0

-- keyval_remove_empty_values(): the key stays, empty or not
unfoldable pub keyval_remove_empty_values : ℕ → Cells → Run Cells
keyval_remove_empty_values fuel kv = collapse_loop fuel kv 1 1

-- arrlen()
unfoldable pub arrlen : Option (List Bytes) → ℤ
arrlen none = negsuc 0
arrlen (some array) = pos (length array)

-- the `for` of arrfind() and arrfindnocase(), with the comparison that they use
unfoldable pub find_index : (Bytes → Bytes → Bool) → List Bytes → Bytes → ℕ → ℤ
find_index same [] value index = negsuc 0
find_index same (s ∷ array) value index =
    if same value s then pos index else find_index same array value (index + 1)

-- arrfindnocase()
unfoldable pub arrfindnocase : Option (List Bytes) → Option Bytes → ℤ
unfolding find_index str_case_eq
arrfindnocase (some array) (some value) = find_index str_case_eq array value 0
arrfindnocase _ _ = negsuc 0

-- arrfind()
unfoldable pub arrfind : Option (List Bytes) → Option Bytes → ℤ
unfolding find_index str_eq
arrfind (some array) (some value) = find_index str_eq array value 0
arrfind _ _ = negsuc 0

-- The scan of str2arr(): the strings that the pointers of the buffer point to when it ends. `value`
-- is the one that buffer[idx] points to so far, and the flag is `valstrbegun`.
unfoldable pub scan_list : Bytes → Bool → Bytes → List Bytes
scan_list value begun [] = value ∷ []
scan_list value begun (c ∷ rest) =
    let ends = is_delim c in
    let blank = not begun && is_space c in
    let value' = if ends || blank then [] else if begun then value ++ c ∷ [] else c ∷ [] in
    let more = scan_list value' (not ends && not blank) rest in if ends then value ∷ more else more

-- The final pass of str2arr(), on one string
unfoldable pub trim_tail : Bytes → Bytes
trim_tail s = take (back s (length s)) s

-- str2arr()
unfoldable pub str2arr : Option Bytes → Option (List Bytes)
unfolding scan_list trim_tail back
str2arr none = none
str2arr (some list) = some (map trim_tail (scan_list [] false list))

-- The loop of arr2str() that writes the strings
unfoldable pub join : List Bytes → Bytes
join [] = []
join (s ∷ []) = s
join (s ∷ (t ∷ ts)) = s ++ (b',' ∷ join (t ∷ ts))

-- The bytes that arr2str() asks for.
unfoldable pub join_bytes : List Bytes → ℕ
join_bytes [] = 1
join_bytes (s ∷ ss) = length s + 1 + join_bytes ss

-- arr2str()
unfoldable pub arr2str : Option (List Bytes) → Option Bytes
unfolding join
arr2str none = none
arr2str (some array) = some (join array)
