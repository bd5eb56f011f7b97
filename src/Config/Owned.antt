-- ===== src/Config/Owned.antt =====
-- Who owns the strings of a configuration: what cfg_commit() and cfg_free() release.
use mathlib.Core.Path.{subst}
use icmond.Prelude.{
  ℕ, ◌≡◌, refl, ◌∙◌, sym, ap, Bool, true, false, ◌==◌, ◌&&◌, if◌then◌else◌, Option, none, some, ok,
  fault, arith, Returns, returns, Returns-bind, Returns-map, Bool-cases, inl, inr, ◌⊎◌,
}
use icmond.EventTypes.{Bytes}
use icmond.Config.{
  Config, cfg_init, cfg_dup, cfg_commit, cfg_free, free_if_differs, default_pinghosts,
  with_defaults,
}
use icmond.Config.Blocks.{
  Buffers, Malloc, block, put, block-put, free, differs, free_if_replaced, IsLive,
}

-- The pointer is `i`.
abbrev pub points : Option ℕ → ℕ → Bool
points none i = false
points (some p) i = p == i

-- What `if (p && p != q) free(p)` leaves of block `i`.
abbrev after_replaced : Option ℕ → Option ℕ → Buffers → ℕ → Option Bytes
after_replaced p q b i = if differs p q then (if points p i then none else block b i) else block b i

free_live :
    (b : Buffers) (p : ℕ) (s : Bytes) → block b p ≡ some s → free (some p) b ≡ ok (put b p none)
unfolding free
free_live b p s live = rw (free, live)

free_if_replaced_correct :
    (p q : Option ℕ) (b : Buffers)
    → IsLive p b
    → Returns (λ b'. (i : ℕ) → block b' i ≡ after_replaced p q b i) (free_if_replaced p q b)
unfolding free_if_replaced free
free_if_replaced_correct none none b l = returns b (λ i. refl)
free_if_replaced_correct none (some q) b l = returns b (λ i. refl)
free_if_replaced_correct (some p) q b (s, live) = elim (Bool-cases (differs (some p) q)) [
  | inl other ↦
      rw (other, free_live b p s live) (returns (put b p none) (λ i. block-put b p none i))
  | inr same ↦ rw same (returns b (λ i. refl))
]

same_pointer : (p : Option ℕ) → differs p p ≡ false
same_pointer none = refl
same_pointer (some p) = ground arith

cfg_free_self : (c : Config) (b : Buffers) → cfg_free c c b ≡ ok b
unfolding cfg_free free_if_differs
cfg_free_self c b =
    rw (same_pointer c.liststring, same_pointer c.pinghosts, same_pointer c.tmpfsfilename)

-- The pointers of a configuration are NULL or live.
pub record Owned (c : Config) (b : Buffers) : Type 0 where
  pub hosts_live : IsLive c.pinghosts b
  pub list_live : IsLive c.liststring b
  pub tmpfs_live : IsLive c.tmpfsfilename b

-- No member of `c` points to the same block as another member of `d`.
pub record Apart (c d : Config) : Type 0 where
  pub hosts_list : (i : ℕ) → points c.pinghosts i && points d.liststring i ≡ false
  pub hosts_tmpfs : (i : ℕ) → points c.pinghosts i && points d.tmpfsfilename i ≡ false
  pub list_hosts : (i : ℕ) → points c.liststring i && points d.pinghosts i ≡ false
  pub list_tmpfs : (i : ℕ) → points c.liststring i && points d.tmpfsfilename i ≡ false
  pub tmpfs_hosts : (i : ℕ) → points c.tmpfsfilename i && points d.pinghosts i ≡ false
  pub tmpfs_list : (i : ℕ) → points c.tmpfsfilename i && points d.liststring i ≡ false

unhit :
    (p q : Option ℕ) (b : Buffers) (r : ℕ)
    → points p r && points (some r) r ≡ false
    → after_replaced p q b r ≡ block b r
unhit p q b r h =
    let self : (r == r) ≡ true = ground arith in
    let miss : points p r ≡ false = ground arith in
    elim (Bool-cases (differs p q)) [ inl d ↦ rw (d, miss) | inr d ↦ rw d ]

kept : (p : Option ℕ) (q : ℕ) (b : Buffers) → after_replaced p (some q) b q ≡ block b q
kept none q b = refl
kept (some p) q b = elim (Bool-cases (p == q)) [ inl e ↦ rw e | inr e ↦ rw e ]

-- A live pointer stays live where the freed one is another.
stays :
    (p q r : Option ℕ) (b b' : Buffers)
    → ((i : ℕ) → block b' i ≡ after_replaced p q b i)
    → ((i : ℕ) → points p i && points r i ≡ false)
    → IsLive r b
    → IsLive r b'
stays p q none b b' f a l = tt
stays p q (some r) b b' f a (s, live) = (s, f r ∙ unhit p q b r (a r) ∙ live)

-- The new pointer itself stays live.
stays_new :
    (p q : Option ℕ) (b b' : Buffers)
    → ((i : ℕ) → block b' i ≡ after_replaced p q b i)
    → IsLive q b
    → IsLive q b'
stays_new p none b b' f l = tt
stays_new p (some q) b b' f (s, live) = (s, f q ∙ kept p q b ∙ live)

-- cfg_commit() of a configuration, where it and `cfg` point to live strings and a pointer of `cfg` is
-- shared at most with the same member of the other, frees nothing twice: it returns the configuration
-- as `cfg`, whose pointers are all live then. cfg_free() of the copy behind it frees nothing.
pub cfg_commit_correct :
    (cfg config : Config) (b : Buffers)
    → Owned cfg b
    → Owned config b
    → Apart cfg cfg
    → Apart cfg config
    → Returns
        (λ (cfg', b'). (cfg' ≡ config) × Owned cfg' b' × (cfg_free cfg' config b' ≡ ok b'))
        (cfg_commit cfg config b)
unfolding cfg_commit
cfg_commit_correct cfg config b o n self other =
    Returns-bind (free_if_replaced_correct cfg.pinghosts config.pinghosts b o.hosts_live) λ b1 f1.
      let list1 =
        stays cfg.pinghosts config.pinghosts cfg.liststring b b1 f1 self.hosts_list o.list_live in
      let tmpfs1 =
        stays cfg.pinghosts config.pinghosts cfg.tmpfsfilename b b1 f1 self.hosts_tmpfs
          o.tmpfs_live in
      let h1 = stays_new cfg.pinghosts config.pinghosts b b1 f1 n.hosts_live in
      let l1 =
        stays cfg.pinghosts config.pinghosts config.liststring b b1 f1 other.hosts_list
          n.list_live in
      let t1 =
        stays cfg.pinghosts config.pinghosts config.tmpfsfilename b b1 f1 other.hosts_tmpfs
          n.tmpfs_live in
      Returns-bind (free_if_replaced_correct cfg.liststring config.liststring b1 list1) λ b2 f2.
        let tmpfs2 =
          stays cfg.liststring config.liststring cfg.tmpfsfilename b1 b2 f2 self.list_tmpfs
            tmpfs1 in
        let h2 =
          stays cfg.liststring config.liststring config.pinghosts b1 b2 f2 other.list_hosts h1 in
        let l2 = stays_new cfg.liststring config.liststring b1 b2 f2 l1 in
        let t2 =
          stays cfg.liststring config.liststring config.tmpfsfilename b1 b2 f2 other.list_tmpfs
            t1 in
        Returns-bind (free_if_replaced_correct cfg.tmpfsfilename config.tmpfsfilename b2 tmpfs2)
          λ b3 f3.
            let h3 =
              stays cfg.tmpfsfilename config.tmpfsfilename config.pinghosts b2 b3 f3
                other.tmpfs_hosts h2 in
            let l3 =
              stays cfg.tmpfsfilename config.tmpfsfilename config.liststring b2 b3 f3
                other.tmpfs_list l2 in
            let t3 = stays_new cfg.tmpfsfilename config.tmpfsfilename b2 b3 f3 t2 in
            returns (config, b3)
              (
                refl,
                record { hosts_live = h3; list_live = l3; tmpfs_live = t3 },
                cfg_free_self config b3,
              )

free_correct :
    (p : Option ℕ) (b : Buffers)
    → IsLive p b
    → Returns (λ b'. (i : ℕ) → block b' i ≡ (if points p i then none else block b i)) (free p b)
free_correct none b l = unfold free in returns b (λ i. refl)
free_correct (some p) b (s, live) =
    rw (free_live b p s live) (returns (put b p none) (block-put b p none))

abbrev IsDead : Option ℕ → Buffers → Type 0
IsDead none b = Unit
IsDead (some p) b = block b p ≡ none

-- A dead pointer is skipped, or freed twice.
free_dead :
    (p q : Option ℕ) (b : Buffers)
    → (differs p q ≡ true → IsDead p b)
    → (free_if_replaced p q b ≡ ok b) ⊎ (free_if_replaced p q b ≡ fault)
unfolding free_if_replaced free
free_dead none q b dead = inl refl
free_dead (some p) q b dead = elim (Bool-cases (differs (some p) q)) [
  | inl d ↦ inr (rw d (rw (free, dead d)))
  | inr d ↦ inl (rw d)
]

free_twice : (p : ℕ) (b : Buffers) → block b p ≡ none → free_if_replaced (some p) none b ≡ fault
unfolding free_if_replaced free
free_twice p b dead = rw (free, dead)

commit_faults :
    (cfg new : Config) (b : Buffers) (p : ℕ)
    → cfg.liststring ≡ some p
    → new.liststring ≡ none
    → block b p ≡ none
    → (differs cfg.pinghosts new.pinghosts ≡ true → IsDead cfg.pinghosts b)
    → cfg_commit cfg new b ≡ fault
unfolding cfg_commit
commit_faults cfg new b p list gone dead hosts =
    elim (free_dead cfg.pinghosts new.pinghosts b hosts) [
      | inl skipped ↦ rw (skipped, list, gone, free_twice p b dead)
      | inr twice ↦ rw twice
    ]

-- The blocks behind the three steps of cfg_init().
hosts-IsDead :
    (p : Option ℕ) (a : ℕ) (s : Bytes) (b b1 : Buffers)
    → ((i : ℕ) → block b1 i ≡ (if points p i then none else block b i))
    → (list : ℕ) → differs p (some a) ≡ true
    → IsDead p (put (put b1 a (some s)) list none)
hosts-IsDead none a s b b1 f list d = tt
hosts-IsDead (some h) a s b b1 f list d =
    let self : (h == h) ≡ true = ground arith in
    let other : (a == h) ≡ false = ground arith in
    block-put (put b1 a (some s)) list none h
    ∙ rw (block-put b1 a (some s) h, other, f h, self) (ground arith)

apart_points :
    (q r : Option ℕ) (p : ℕ)
    → r ≡ some p
    → ((i : ℕ) → points q i && points r i ≡ false)
    → points q p ≡ false
apart_points q r p e h =
    let self : (p == p) ≡ true = ground arith in
    let k : points q p && points (some p) p ≡ false =
      subst (λ o. points q p && points o p ≡ false) e (h p) in
    ground arith

pub not_fresh :
    (b : Buffers) (a p : ℕ) (s : Bytes) → block b a ≡ none → block b p ≡ some s → (a == p) ≡ false
not_fresh b a p s dead live = elim (Bool-cases (a == p)) [
  | inr other ↦ other
  | inl same ↦ let e : a ≡ p = ground arith in absurd (bad (sym dead ∙ ap (block b) e ∙ live))
]
  where
    bad : (none ≡ some s) → ⊥
    bad e = cc

-- cfg_init() of a copy that shares its strings with `cfg`, and what the copy is then.
pub cfg_init-fresh :
    (m : Malloc) (cfg : Config) (b : Buffers) (p : ℕ)
    → Owned cfg b
    → Apart cfg cfg
    → cfg.liststring ≡ some p
    → Returns
        (λ (new, b').
          (block b' p ≡ none)
          × (cfg_commit cfg new b' ≡ fault)
          × ((a : ℕ) × (new ≡ with_defaults a cfg)))
        (cfg_init m (cfg_dup cfg) b)
unfolding cfg_init cfg_dup
cfg_init-fresh m cfg b p o self list =
    let (s, live) : IsLive (some p) b = subst (λ q. IsLive q b) list o.list_live in
    Returns-bind (free_correct cfg.pinghosts b o.hosts_live) λ b1 f1.
      let a = m.choose b1 in
      let b2 = put b1 a (some default_pinghosts) in
      let b3 = put b2 p none in
      let self_p : (p == p) ≡ true = ground arith in
      let miss : points cfg.pinghosts p ≡ false =
        apart_points cfg.pinghosts cfg.liststring p list self.hosts_list in
      let live1 : block b1 p ≡ some s = f1 p ∙ rw miss live in
      let other : (a == p) ≡ false = not_fresh b1 a p s (m.fresh b1) live1 in
      let live2 : block b2 p ≡ some s =
        block-put b1 a (some default_pinghosts) p ∙ rw other live1 in
      let dead : block b3 p ≡ none = block-put b2 p none p ∙ rw self_p in
      let freed : free cfg.liststring b2 ≡ ok b3 = rw list (free_live b2 p s live2) in
      rw freed (
        returns (with_defaults a cfg, b3)
          (
            dead,
            commit_faults cfg (with_defaults a cfg) b3 p list refl dead
                (λ d. hosts-IsDead cfg.pinghosts a default_pinghosts b b1 f1 p d),
            (a, refl),
          ))

-- handle_SIGHUP() calls cfg_init() on the copy that cfg_dup() makes, which frees the strings that the
-- copy shares with `cfg`. If `cfg` has an event list, its pointer is left to a block that is not live,
-- whatever malloc() does, and cfg_commit() of the fresh copy would free it a second time.
pub cfg_init-cfg_dup :
    (m : Malloc) (cfg : Config) (b : Buffers) (p : ℕ)
    → Owned cfg b
    → Apart cfg cfg
    → cfg.liststring ≡ some p
    → Returns
        (λ (new, b'). (block b' p ≡ none) × (cfg_commit cfg new b' ≡ fault))
        (cfg_init m (cfg_dup cfg) b)
cfg_init-cfg_dup m cfg b p o self list =
    Returns-map (cfg_init-fresh m cfg b p o self list) λ x (dead, faults, fresh). (dead, faults)
