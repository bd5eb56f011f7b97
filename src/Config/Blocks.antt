-- ===== src/Config/Blocks.antt =====
-- The heap blocks that hold strings: what strdup() and calloc() return, and free(). A block has its
-- address as its index, and one that is not live has no content.
use icmond.Prelude.{
  ℕ, zero, suc, ◌≡◌, refl, ◌∙◌, Bool, true, false, ◌==◌, if◌then◌else◌, List, [], ◌∷◌, Option, none,
  some, Run, ok, fault, arith,
}
use icmond.EventTypes.{Bytes}

abbrev pub Buffers : Type 0
Buffers = List (Option Bytes)

unfoldable pub block : Buffers → ℕ → Option Bytes
block [] p = none
block (s ∷ more) zero = s
block (s ∷ more) (suc p) = block more p

unfoldable pub put : Buffers → ℕ → Option Bytes → Buffers
put [] zero v = v ∷ []
put [] (suc p) v = none ∷ put [] p v
put (s ∷ more) zero v = v ∷ more
put (s ∷ more) (suc p) v = s ∷ put more p v

same_suc :
    (p q : ℕ) (v w : Option Bytes) → (if p == q then v else w) ≡ (if suc p == suc q then v else w)
same_suc p q v w = ground arith

pub block-put :
    (b : Buffers) (p : ℕ) (v : Option Bytes) (q : ℕ)
    → block (put b p v) q ≡ (if p == q then v else block b q)
unfolding block put
block-put [] zero v zero = refl
block-put [] zero v (suc q) = ground arith
block-put [] (suc p) v zero = ground arith
block-put [] (suc p) v (suc q) = block-put [] p v q ∙ same_suc p q v none
block-put (s ∷ more) zero v zero = refl
block-put (s ∷ more) zero v (suc q) = ground arith
block-put (s ∷ more) (suc p) v zero = ground arith
block-put (s ∷ more) (suc p) v (suc q) = block-put more p v q ∙ same_suc p q v (block more q)

-- malloc(): the address that it chooses, of a block that is not live; it may have been freed
pub record Malloc : Type 0 where
  pub choose : Buffers → ℕ
  pub fresh : (b : Buffers) → block b (choose b) ≡ none

-- A new block with a string, as of strdup() and keyval2valstr().
abbrev pub allocate : Malloc → Bytes → Buffers → ℕ × Buffers
allocate m s b = (m.choose b, put b (m.choose b) (some s))

-- free(); a block that is not live is freed twice
unfoldable pub free : Option ℕ → Buffers → Run Buffers
unfolding block put
free none b = ok b
free (some p) b = elim (block b p) [ none ↦ fault | some s ↦ ok (put b p none) ]

-- `p != q` on pointers
abbrev pub differs : Option ℕ → Option ℕ → Bool
differs none none = false
differs (some p) (some q) = if p == q then false else true
differs _ _ = true

-- `if (p && p != q) free(p)`
unfoldable pub free_if_replaced : Option ℕ → Option ℕ → Buffers → Run Buffers
unfolding free
free_if_replaced none q b = ok b
free_if_replaced (some p) q b =
    let freed = free (some p) b in if differs (some p) q then freed else ok b

-- The pointer is NULL, or points to a live block.
abbrev pub IsLive : Option ℕ → Buffers → Type 0
IsLive none b = Unit
IsLive (some p) b = (s : Bytes) × (block b p ≡ some s)
