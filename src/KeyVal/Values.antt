-- ===== src/KeyVal/Values.antt =====
-- keyval.c: a line in which no escape is pending at the end has a value, if it is a "key = value" line.
use icmond.Prelude.{
  ◌≡◌, refl, ◌∙◌, sym, Bool, true, false, not, ◌&&◌, ◌==◌, List, [], ◌∷◌, ◌++◌, map, Option, none,
  some, arith, Returns, Bool-cases, inl, inr,
}
use icmond.EventTypes.{Bytes}
use icmond.Text.{backslash}
use icmond.Text.Trim.{trim}
use icmond.KeyVal.{remove_comments, sanitize, keyval_create}
use icmond.KeyVal.Fields.{split, is_closed, fields}
use icmond.KeyVal.Create.{keyval_create_correct}

is_closed-remove_comments :
    (f : Bool) (s : Bytes) → is_closed f s ≡ true → is_closed f (remove_comments f s) ≡ true
unfolding is_closed remove_comments
is_closed-remove_comments f [] h = h
is_closed-remove_comments f (c ∷ s) h = elim (Bool-cases (c == b'#' && not f)) [
  | inl comment ↦ let open_ : not f ≡ true = ground arith in rw comment open_
  | inr text ↦ rw text (is_closed-remove_comments (c == backslash && not f) s h)
]

is_closed-equal :
    (f : Bool) (key list : Bytes)
    → is_closed f key ≡ true
    → is_closed f (key ++ (b'=' ∷ list)) ≡ is_closed false list
unfolding is_closed
is_closed-equal f [] list h = refl
is_closed-equal f (c ∷ key) list h = is_closed-equal (c == backslash && not f) key list h

-- A line that ends in a newline has no escape pending at its end.
pub is_closed-newline : (f : Bool) (s : Bytes) → is_closed f (s ++ b'\n' ∷ []) ≡ true
unfolding is_closed
is_closed-newline f [] = refl
is_closed-newline f (c ∷ s) = is_closed-newline (c == backslash && not f) s

-- A keyval_t with a key and a value, or NULL.
abbrev pub HasValue : Option (List Bytes) → Type 0
HasValue none = Unit
HasValue (some (key ∷ (value ∷ values))) = Unit
HasValue (some _) = ⊥

fields_cons :
    (s : Bytes) → is_closed false s ≡ true → (v : Bytes) × (vs : List Bytes) × (fields s ≡ v ∷ vs)
unfolding fields
fields_cons s h = let (first, others) = split false s in (first, others, rw h)

-- keyval_create() on a line in which no escape is pending at the end always returns: NULL, or a key
-- with at least one value.
pub keyval_create-HasValue :
    (s : Bytes) → is_closed false s ≡ true → Returns HasValue (keyval_create (some s))
keyval_create-HasValue s h = elim (keyval_create_correct s) [
  | inl (many, run) ↦ (none, run, tt)
  | inr (one, (key, list, splits, closed, run)) ↦
      let text = remove_comments false s in
      let e : is_closed false list ≡ true =
        sym (is_closed-equal false key list closed)
        ∙ rw (← splits) (is_closed-remove_comments false s h) in
      let (v, vs, cons) = fields_cons list e in
      (some (map (sanitize false) (trim key ∷ map trim (v ∷ vs))), run ∙ rw cons, tt)
]
