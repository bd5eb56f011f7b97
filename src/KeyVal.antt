-- ===== src/KeyVal.antt =====
-- keyval.c: "key = value, value" lines. A string is the list of its bytes; a keyval_t is the list of
-- its strings, the key first, without the NULL that ends it. Where a function writes its result
-- string by string into one block, the model returns the strings, and `block_bytes` and
-- `pointer_slots` give the block that the code asks for. Allocation never fails.
pub mod TrimCopy
pub mod Fields
pub mod Create
pub mod Bounds
pub mod Values
pub mod RoundTrip
pub mod Shift
use icmond.Prelude.{
  ℕ, zero, suc, ◌+◌, ◌-◌, Bool, true, false, not, ◌&&◌, ◌||◌, ltb, ◌==◌, if◌then◌else◌, List, [],
  ◌∷◌, ◌++◌, Option, none, some, map, length, Run, ok, fault, ◌>>=◌,
}
use icmond.EventTypes.{Bytes}
use icmond.Text.{is_space, is_delim, backslash, str_case_eq, is_nonempty}
use icmond.Text.Trim.{take, back}

-- __remove_comments(), on a string
unfoldable pub remove_comments : Bool → Bytes → Bytes
remove_comments f_escape [] = []
remove_comments f_escape (chr ∷ rest) =
    let copied = remove_comments (chr == backslash && not f_escape) rest in
    if chr == b'#' && not f_escape then [] else chr ∷ copied

-- `while (isspace(*begin)) begin++`: how far it goes, and what it leaves
unfoldable pub skip_space : Bytes → ℕ × Bytes
skip_space [] = (0, [])
skip_space (c ∷ s) =
    let (k, rest) = skip_space s in if is_space c then (suc k, rest) else (0, c ∷ s)

-- __trimcpy(): the string written to dst. A negative length handed to memcpy() is a fault.
unfoldable pub trimcpy : Bytes → ℕ → Run Bytes
unfolding skip_space back
trimcpy src len =
    let (k, begin) = skip_space src in
    if is_nonempty begin
    then (if ltb len k then fault else ok (take (back begin (len - k)) begin))
    else ok []

-- one string in __sanitize_values()
unfoldable pub sanitize : Bool → Bytes → Bytes
sanitize f_escape [] = []
sanitize f_escape (chr ∷ rest) =
    let escapes = chr == backslash && not f_escape in
    let written = sanitize escapes rest in if escapes then written else chr ∷ written

-- __sanitize_values()
unfoldable pub sanitize_values : List Bytes → List Bytes
unfolding sanitize
sanitize_values = map (sanitize false)

-- The first scan of __getkeyval(): how many `=` delimit, and the index of the last of them.
pub record EqualScan : Type 0 where
  pub f_delim : ℕ
  pub equalsign : ℕ

unfoldable pub scan_equals : EqualScan → Bool → ℕ → Bytes → EqualScan
scan_equals st f_escape srcindex [] = st
scan_equals st f_escape srcindex (chr ∷ rest) =
    let escapes = chr == backslash && not f_escape in
    let found = chr == b'=' && not f_escape in
    let st' = if found then record { f_delim = st.f_delim + 1; equalsign = srcindex } else st in
    let more = scan_equals st' escapes (srcindex + 1) rest in
    if chr == b'#' && not f_escape then st else more

-- The second scan of __getkeyval(): the delimiters that count.
unfoldable pub count_delims : Bool → Bytes → ℕ
count_delims f_escape [] = 0
count_delims f_escape (chr ∷ rest) =
    let n = count_delims (chr == backslash && not f_escape) rest in
    if is_delim chr && not f_escape then n + 1 else n

-- The pointers and the bytes that __getkeyval() asks for: key, values, NULL; and the text.
unfoldable pub pointer_slots : Bytes → ℕ
unfolding count_delims
pointer_slots src = 1 + (count_delims false src + 1) + 1

unfoldable pub block_bytes : Bytes → ℕ
block_bytes src = length src + 1

-- The third scan of __getkeyval(): the values. `valptr` is the rest of the source from the start of
-- the current value, `len` how far the scan is past it, and the last round is on the NUL.
unfoldable pub scan_values : Bytes → ℕ → Bool → Bytes → Run (List Bytes)
unfolding trimcpy
scan_values valptr len f_escape [] =
    let last : Run (List Bytes) = (do v ← trimcpy valptr len; ok (v ∷ [])) in
    if not f_escape then last else ok []
scan_values valptr len f_escape (chr ∷ rest) =
    let ends = is_delim chr && not f_escape in
    let more =
      scan_values (if ends then rest else valptr) (if ends then 0 else len + 1)
        (chr == backslash && not f_escape) rest in
    let stored : Run (List Bytes) = (do v ← trimcpy valptr len; vs ← more; ok (v ∷ vs)) in
    if ends then stored else more

abbrev pub drop : ℕ → Bytes → Bytes
drop zero s = s
drop (suc n) [] = []
drop (suc n) (c ∷ s) = drop n s

-- __getkeyval()
unfoldable pub getkeyval : Bytes → Run (Option (List Bytes))
unfolding scan_equals scan_values trimcpy
getkeyval src =
    let st = scan_equals (record { f_delim = 0; equalsign = 0 }) false 0 src in
    let values = drop (st.equalsign + 1) src in
    let build : Run (Option (List Bytes)) = do
      key ← trimcpy src st.equalsign
      vs ← scan_values values 0 false values
      ok (some (key ∷ vs))
    in if st.f_delim == 1 then build else ok none

-- keyval_create(); `none` is NULL
unfoldable pub keyval_create : Option Bytes → Run (Option (List Bytes))
unfolding remove_comments getkeyval sanitize_values
keyval_create none = ok none
keyval_create (some keyvalstring) = do
  kv ← getkeyval (remove_comments false keyvalstring)
  ok (elim kv [ none ↦ none | some strings ↦ some (sanitize_values strings) ])

-- keyval_nvalues(); a keyval_t has at least its key
unfoldable pub keyval_nvalues : Option (List Bytes) → ℕ
keyval_nvalues none = 0
keyval_nvalues (some kv) = length kv - 1

-- keyval_iskey()
unfoldable pub keyval_iskey : Option (List Bytes) → Option Bytes → Bool
keyval_iskey (some (key ∷ _)) (some keyname) = str_case_eq key keyname
keyval_iskey _ _ = false

-- keyval2array(): each pointer is copied over the one before it; the last one stays where it is.
unfoldable pub keyval2array : List Bytes → List Bytes
keyval2array [] = []
keyval2array (key ∷ []) = key ∷ []
keyval2array (key ∷ (v ∷ vs)) = v ∷ keyval2array (v ∷ vs)

-- __2str() from the first string on
unfoldable pub to_str : List Bytes → Bytes
to_str [] = []
to_str (s ∷ []) = s
to_str (s ∷ (t ∷ ts)) = s ++ (b',' ∷ to_str (t ∷ ts))

-- The bytes that __2str() asks for.
unfoldable pub to_str_bytes : List Bytes → ℕ
to_str_bytes [] = 1
to_str_bytes (s ∷ ss) = length s + 1 + to_str_bytes ss

-- keyval2valstr()
unfoldable pub keyval2valstr : List Bytes → Bytes
unfolding to_str
keyval2valstr [] = []
keyval2valstr (key ∷ vs) = to_str vs

-- `*(str + n) = '='`: a write to the NUL lengthens the string, as calloc() left a NUL behind it
unfoldable pub put_equal : ℕ → Bytes → Bytes
put_equal n [] = b'=' ∷ []
put_equal zero (c ∷ s) = b'=' ∷ s
put_equal (suc n) (c ∷ s) = c ∷ put_equal n s

-- keyval2str()
unfoldable pub keyval2str : List Bytes → Bytes
unfolding to_str put_equal
keyval2str [] = []
keyval2str (key ∷ vs) = put_equal (length key) (to_str (key ∷ vs))
