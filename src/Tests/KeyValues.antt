-- ===== src/Tests/KeyValues.antt =====
-- Runs of keyval.c and of the arrays of util.c, and their theorems at concrete strings.
use icmond.Prelude.{
  true, zero, suc, ◌+◌, ◌≤◌, ◌≡◌, ◌≢◌, ◌⊎◌, refl, false, none, some, List, [], ◌∷◌, ◌++◌, map,
  length, All, ok, Returns, arith, ◌==◌, if◌then◌else◌,
}
use icmond.EventTypes.{Bytes, codes}
use icmond.Text.{is_space, is_delim}
use icmond.Text.Trim.{trim}
use icmond.KeyVal.{
  keyval_create, keyval2array, keyval2str, remove_comments, sanitize, getkeyval, block_bytes,
  pointer_slots,
}
use icmond.KeyVal.Fields.{fields, is_closed}
use icmond.KeyVal.Create.{equals, keyval_create_correct}
use icmond.KeyVal.Bounds.{bytes_taken, getkeyval_bounds}
use icmond.KeyVal.RoundTrip.{IsWord, keyval_create-keyval2str}
use icmond.KeyVal.Shift.{last_of, keyval2array-append}
use icmond.Arrays.{Cells, arrcollapse, str2arr, arr2str}
use icmond.Arrays.Collapse.{Holds, nonempty_strings, arrcollapse_correct}
use icmond.Arrays.Convert.{IsItem, str2arr-arr2str}

create_runs :
    keyval_create (some (codes " hosts = a\\,b , c; # d"))
    ≡ ok (some (codes "hosts" ∷ codes "a,b" ∷ codes "c" ∷ [] ∷ []))
unfolding keyval_create is_space is_delim
create_runs = refl

-- A backslash at the end of the line loses the last value.
create_loses :
    keyval_create (some (codes "key = a, b\\")) ≡ ok (some (codes "key" ∷ codes "a" ∷ []))
unfolding keyval_create is_space is_delim
create_loses = refl

array_repeats :
    keyval2array (codes "key" ∷ codes "a" ∷ codes "b" ∷ []) ≡ codes "a" ∷ codes "b" ∷ codes "b" ∷ []
unfolding keyval2array
array_repeats = refl

list_splits : str2arr (some (codes " a b ;, c ")) ≡ some (codes "a b" ∷ [] ∷ codes "c" ∷ [])
unfolding str2arr is_space is_delim
list_splits = refl

keyval_create_correct_example :
    let text = remove_comments false (codes "k = v # w") in
    ((equals false text ≢ 1) × (keyval_create (some (codes "k = v # w")) ≡ ok none))
    ⊎ ((equals false text ≡ 1)
        × ((key list : Bytes) × (text ≡ key ++ (b'=' ∷ list))
            × (is_closed false key ≡ true)
            × (keyval_create (some (codes "k = v # w"))
                ≡ ok (some (map (sanitize false) (trim key ∷ map trim (fields list)))))))
keyval_create_correct_example = keyval_create_correct (codes "k = v # w")

line_read : getkeyval (codes "k=a,b") ≡ ok (some (codes "k" ∷ codes "a" ∷ codes "b" ∷ []))
unfolding getkeyval is_space is_delim
line_read = refl

getkeyval_bounds_example :
    (bytes_taken (codes "k" ∷ codes "a" ∷ codes "b" ∷ []) ≤ block_bytes (codes "k=a,b"))
    × (length (codes "k" ∷ codes "a" ∷ codes "b" ∷ []) + 1 ≤ pointer_slots (codes "k=a,b"))
getkeyval_bounds_example = getkeyval_bounds (codes "k=a,b") line_read

words : All IsWord (codes "k" ∷ codes "a b" ∷ codes "c" ∷ [])
unfolding is_space is_delim trim
words = (
  record { plain = (refl, tt); trimmed = refl },
  (
    record { plain = (refl, (refl, (refl, tt))); trimmed = refl },
    (record { plain = (refl, tt); trimmed = refl }, tt),
  ),
)

keyval_create-keyval2str_example :
    keyval_create (some (keyval2str (codes "k" ∷ codes "a b" ∷ codes "c" ∷ [])))
    ≡ ok (some (codes "k" ∷ codes "a b" ∷ codes "c" ∷ []))
keyval_create-keyval2str_example =
    keyval_create-keyval2str (codes "k") (codes "a b") (codes "c" ∷ []) words

keyval2array-append_example :
    keyval2array (codes "k" ∷ codes "a" ∷ [])
    ≡ codes "a" ∷ [] ++ last_of (codes "k") (codes "a" ∷ []) ∷ []
keyval2array-append_example = keyval2array-append (codes "k") (codes "a" ∷ [])

abbrev gaps : List Bytes
gaps = codes "a" ∷ [] ∷ codes "b" ∷ []

abbrev gap_cells : Cells
gap_cells i =
    if i == 0
    then some (codes "a")
    else if i == 1
    then some []
    else if i == 2
    then some (codes "b")
    else none

gap-Holds : Holds gap_cells 0 gaps
gap-Holds zero p = refl
gap-Holds (suc zero) p = refl
gap-Holds (suc (suc zero)) p = refl
gap-Holds (suc (suc (suc zero))) p = refl
gap-Holds (suc (suc (suc (suc i)))) p = absurd (omega arith)

arrcollapse_correct_example :
    Returns (λ a. Holds a 0 (nonempty_strings gaps)) (arrcollapse (length gaps + 1) gap_cells)
arrcollapse_correct_example = arrcollapse_correct gaps gap_cells gap-Holds

value-Holds : Holds gap_cells 1 ([] ∷ codes "b" ∷ [])
value-Holds zero p = refl
value-Holds (suc zero) p = refl
value-Holds (suc (suc zero)) p = refl
value-Holds (suc (suc (suc i))) p = absurd (omega arith)

items : All IsItem (codes "a b" ∷ codes "c" ∷ [])
unfolding is_space is_delim trim
items = (
  record { whole = (refl, (refl, (refl, tt))); trimmed = refl },
  (record { whole = (refl, tt); trimmed = refl }, tt),
)

str2arr-arr2str_example :
    str2arr (arr2str (some (codes "a b" ∷ codes "c" ∷ []))) ≡ some (codes "a b" ∷ codes "c" ∷ [])
str2arr-arr2str_example = str2arr-arr2str (codes "a b") (codes "c" ∷ []) items
