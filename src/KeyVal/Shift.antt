-- ===== src/KeyVal/Shift.antt =====
-- keyval2array() and the blocks of keyval2str() and keyval2valstr().
use icmond.Prelude.{
  ℕ, zero, suc, ◌+◌, ◌≤◌, ◌≡◌, refl, ap, List, [], ◌∷◌, ◌++◌, arith, length, length-append,
}
use icmond.EventTypes.{Bytes}
use icmond.KeyVal.{keyval2array, to_str, to_str_bytes, keyval2str, put_equal}

abbrev pub last_of : Bytes → List Bytes → Bytes
last_of s [] = s
last_of s (t ∷ ts) = last_of t ts

-- keyval2array() returns the values followed by the last string of the keyval_t once more, since it
-- does not move the NULL: by its last value, or by the key where there is no value.
pub keyval2array-append :
    (key : Bytes) (vs : List Bytes) → keyval2array (key ∷ vs) ≡ vs ++ last_of key vs ∷ []
unfolding keyval2array
keyval2array-append key [] = refl
keyval2array-append key (v ∷ vs) = ap (◌∷◌ v) (keyval2array-append v vs)

to_str-fits : (ss : List Bytes) → length (to_str ss) + 1 ≤ to_str_bytes ss
unfolding to_str to_str_bytes
to_str-fits [] = omega arith
to_str-fits (s ∷ []) = omega arith
to_str-fits (s ∷ (t ∷ ts)) =
    omega (arith, length-append s (b',' ∷ to_str (t ∷ ts)), to_str-fits (t ∷ ts))

length-put_equal-inside : (n : ℕ) (s : Bytes) → length (put_equal n s) ≤ length s + 1
unfolding put_equal
length-put_equal-inside n [] = omega arith
length-put_equal-inside zero (c ∷ s) = omega arith
length-put_equal-inside (suc n) (c ∷ s) = omega (arith, length-put_equal-inside n s)

length-put_equal :
    (s : Bytes) (c : ℕ) (t : Bytes)
    → length (put_equal (length s) (s ++ (c ∷ t))) ≡ length (s ++ (c ∷ t))
unfolding put_equal
length-put_equal [] c t = refl
length-put_equal (d ∷ s) c t = ap suc (length-put_equal s c t)

-- keyval2str() writes its line, the `=` included, and the NUL behind it inside the bytes that __2str()
-- asks for, whatever the number of values.
pub keyval2str-fits :
    (key : Bytes) (vs : List Bytes) → length (keyval2str (key ∷ vs)) + 1 ≤ to_str_bytes (key ∷ vs)
unfolding keyval2str to_str to_str_bytes
keyval2str-fits key [] = omega (arith, length-put_equal-inside (length key) key)
keyval2str-fits key (v ∷ vs) =
    omega (arith, length-put_equal key b',' (to_str (v ∷ vs)), to_str-fits (key ∷ (v ∷ vs)))
