-- ===== src/Arrays/Collapse.antt =====
-- The loop that closes the gaps which empty strings leave in an array.
use icmond.Prelude.{
  ℕ, zero, suc, ◌+◌, ◌≤◌, ◌<◌, ◌≡◌, refl, ap, ◌∙◌, ◌==◌, not, true, false, if◌then◌else◌, update,
  List, [], ◌∷◌, Option, none, some, arith, length, get_elem?, ok, Returns, returns, Returns-map,
  Bool-cases, inl, inr,
}
use icmond.EventTypes.{Bytes}
use icmond.Text.{is_nonempty}
use icmond.Arrays.{Cells, collapse_loop, arrcollapse, keyval_remove_empty_values}

-- From cell `at` on, the array holds these strings and the NULL behind them.
abbrev pub Holds : Cells → ℕ → List Bytes → Type 0
Holds a at ss = (i : ℕ) → i ≤ length ss → a (at + i) ≡ get_elem? ss i

-- The strings that are not empty, in their order.
unfoldable pub nonempty_strings : List Bytes → List Bytes
nonempty_strings [] = []
nonempty_strings (s ∷ ss) =
    let rest = nonempty_strings ss in if is_nonempty s then s ∷ rest else rest

Holds-cons :
    (a : Cells) (at : ℕ) (s : Bytes) (ss : List Bytes)
    → a at ≡ some s
    → Holds a (at + 1) ss
    → Holds a at (s ∷ ss)
Holds-cons a at s ss h t zero p = let e : at + 0 ≡ at = omega arith in rw e h
Holds-cons a at s ss h t (suc i) p =
    let e : at + suc i ≡ at + 1 + i = omega arith in rw e (t i (omega arith))

Holds-head : (a : Cells) (at : ℕ) (ss : List Bytes) → Holds a at ss → a at ≡ get_elem? ss 0
Holds-head a at ss h = let e : at + 0 ≡ at = omega arith in rw e at (h 0 (omega arith))

Holds-tail :
    (a b : Cells) (at : ℕ) (s : Bytes) (ss : List Bytes)
    → Holds a at (s ∷ ss)
    → ((j : ℕ) → at < j → b j ≡ a j)
    → Holds b (at + 1) ss
Holds-tail a b at s ss h same i p =
    let e : at + suc i ≡ at + 1 + i = omega arith in
    same (at + 1 + i) (omega arith) ∙ rw e at (h (suc i) (omega arith))

-- The cells from `writeidx` up to `valueidx` are NULL.
abbrev IsGap : Cells → ℕ → ℕ → Type 0
IsGap a writeidx valueidx = (j : ℕ) → writeidx ≤ j → j < valueidx → a j ≡ none

-- What the rest of the loop makes of the array.
record Collapsed (a : Cells) (writeidx : ℕ) (ss : List Bytes) (b : Cells) : Type 0 where
  holds : Holds b writeidx (nonempty_strings ss)
  before : (j : ℕ) → j < writeidx → b j ≡ a j

-- The array after a string was moved from `valueidx` to `writeidx`.
abbrev moved : Cells → ℕ → ℕ → Option Bytes → Cells
moved a v w s = if not (v == w) then update (update a w s) v none else a

module _ (k : ℕ) (a : Cells) (v w : ℕ) where
  collapse-end : a v ≡ none → collapse_loop (suc k) a v w ≡ ok a
  unfolding collapse_loop
  collapse-end e = rw (e, collapse_loop)

  collapse-keep :
      (s : Bytes)
      → a v ≡ some s
      → is_nonempty s ≡ true
      → collapse_loop (suc k) a v w ≡ collapse_loop k (moved a v w (some s)) (v + 1) (w + 1)
  unfolding collapse_loop
  collapse-keep s e h =
      rw (e, collapse_loop) (rw h (ap (λ x. collapse_loop k (moved a v w x) (v + 1) (w + 1)) e))

  collapse-skip :
      (s : Bytes)
      → a v ≡ some s
      → is_nonempty s ≡ false
      → collapse_loop (suc k) a v w ≡ collapse_loop k (update a v none) (v + 1) w
  unfolding collapse_loop
  collapse-skip s e h = rw (e, collapse_loop) (rw h)

collapse_loop_correct :
    (k : ℕ) (a : Cells) (v w : ℕ) (ss : List Bytes)
    → length ss < k
    → w ≤ v
    → Holds a v ss
    → IsGap a w v
    → Returns (λ b. Collapsed a w ss b) (collapse_loop k a v w)
unfolding nonempty_strings
collapse_loop_correct zero a v w ss f le h gap = absurd (omega arith)
collapse_loop_correct (suc k) a v w [] f le h gap =
    let last = Holds-head a v [] h in
    rw (collapse-end k a v w last) (
      returns a (record {
        holds = λ i p. let e : w + i ≡ w = omega (arith, p) in rw e (ground (arith, gap w, last));
        before = λ j p. refl;
      }))
collapse_loop_correct (suc k) a v w (s ∷ ss) f le h gap =
    let at = Holds-head a v (s ∷ ss) h in
    elim (Bool-cases (is_nonempty s)) [
      | inl keep ↦
          let b = moved a v w (some s) in
          rw (collapse-keep k a v w s at keep) (
            Returns-map
              (collapse_loop_correct k b (v + 1) (w + 1) ss (omega arith) (omega arith)
                (Holds-tail a b v s ss h (λ j p. ground arith)) (λ j p q. ground (arith, gap j)))
              (λ c r. record {
                holds = rw keep (
                    Holds-cons c w s (nonempty_strings ss) (ground (arith, r.before w, at))
                      r.holds);
                before = λ j p. ground (arith, r.before j);
              }))
      | inr empty ↦
          let b = update a v none in
          rw (collapse-skip k a v w s at empty) (
            Returns-map
              (collapse_loop_correct k b (v + 1) w ss (omega arith) (omega arith)
                (Holds-tail a b v s ss h (λ j p. ground arith)) (λ j p q. ground (arith, gap j)))
              (λ c r. record {
                holds = rw empty r.holds;
                before = λ j p. ground (arith, r.before j);
              }))
    ]

-- arrcollapse() on an array with these strings always returns, and leaves the array with those of the
-- strings that are not empty, in their order, and a NULL behind them.
pub arrcollapse_correct :
    (ss : List Bytes) (array : Cells)
    → Holds array 0 ss
    → Returns (λ a. Holds a 0 (nonempty_strings ss)) (arrcollapse (length ss + 1) array)
unfolding arrcollapse
arrcollapse_correct ss array h =
    Returns-map
      (collapse_loop_correct (length ss + 1) array 0 0 ss (omega arith) (omega arith) h
        (λ j p q. absurd (omega arith)))
      (λ a r. r.holds)

-- keyval_remove_empty_values() on a keyval_t always returns, leaves the key, and leaves the values that
-- are not empty, in their order, and a NULL behind them.
pub keyval_remove_empty_values_correct :
    (vs : List Bytes) (kv : Cells)
    → Holds kv 1 vs
    → Returns
        (λ a. (a 0 ≡ kv 0) × Holds a 1 (nonempty_strings vs))
        (keyval_remove_empty_values (length vs + 1) kv)
unfolding keyval_remove_empty_values
keyval_remove_empty_values_correct vs kv h =
    Returns-map
      (collapse_loop_correct (length vs + 1) kv 1 1 vs (omega arith) (omega arith) h
        (λ j p q. absurd (omega arith)))
      (λ a r. (r.before 0 (omega arith), r.holds))
