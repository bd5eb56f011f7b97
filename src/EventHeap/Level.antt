-- ===== src/EventHeap/Level.antt =====
-- The level of an index in the heap of eventheap.c.
use icmond.Prelude.{
  ℕ, zero, suc, ◌+◌, ◌*◌, ◌/◌, ◌≤◌, ◌<◌, ◌≡◌, arith, ◌==◌, Bool-cases, inl, inr, Returns, returns,
  Returns-map,
}
use icmond.EventHeap.{heaplevel_loop, heaplevel}

-- 2 to a power
abbrev pub two_to : ℕ → ℕ
two_to zero = 1
two_to (suc k) = 2 * two_to k

-- `level` is `start` and the number of times that the index can be halved before it is 1.
abbrev IsLevel : ℕ → ℕ → ℕ → Type 0
IsLevel start index level =
    (k : ℕ) × (level ≡ start + k) × (two_to k ≤ index) × (index < 2 * two_to k)

heaplevel_loop-IsLevel :
    (fuel index start : ℕ)
    → 1 ≤ index
    → index < fuel
    → Returns (IsLevel start index) (heaplevel_loop fuel index start)
unfolding heaplevel_loop
heaplevel_loop-IsLevel zero index start p f = absurd (omega arith)
heaplevel_loop-IsLevel (suc fuel) index start p f = elim (Bool-cases (index / 2 == 0)) [
  | inl root ↦
      let one : index ≡ 1 = ground arith in
      rw root (returns start (0, omega arith, omega arith, omega arith))
  | inr below ↦
      let h : 1 ≤ index / 2 = ground arith in
      rw below (
        Returns-map (heaplevel_loop-IsLevel fuel (index / 2) (start + 1) h (omega arith))
          λ level (k, e, lo, hi). (suc k, omega (arith, e), omega (arith, lo), omega (arith, hi)))
]

-- heaplevel() always returns for an index of at least 1, and returns its logarithm to the base 2,
-- rounded down.
pub heaplevel_lem :
    (index : ℕ)
    → 1 ≤ index
    → Returns (λ level. (two_to level ≤ index) × (index < 2 * two_to level)) (heaplevel index)
unfolding heaplevel
heaplevel_lem index p =
    Returns-map (heaplevel_loop-IsLevel (index + 1) index 0 p (omega arith))
      λ level (k, e, lo, hi). let same : level ≡ k = omega (arith, e) in rw same (lo, hi)
