-- ===== src/Mempool/Handles.antt =====
-- src/mempool.rs: the invariant of the handles and the table, and that each operation keeps it.
use async_dpdk.Base.{
  ℕ, suc, ◌-◌, ◌<◌, ◌≡◌, ◌≢◌, refl, sym, ap, ◌∙◌, subst, ◌⊎◌, inl, inr, Bool, true, false,
  Bool-cases, Option-cases, Option, some, lookup, insert, lookup-insert_self, lookup-insert_ne,
  ◌==◌, update, arith,
}
use async_dpdk.Errno.{Error}
use async_dpdk.Mempool.{Pools, mempool_free, mempool_create, drop_arc, new_arc, new_ref, lookup_ref}

-- Handles keep their pool, the table leads to them, each pool has a handle, and none was freed twice.
pub record IsValid (s : Pools) : Type 0 where
  pub held : (a : ℕ) → 0 < s.strong a → s.live (s.target a) ≡ true
  pub noted : (a : ℕ) → 0 < s.strong a → lookup (s.target a) s.weaks ≡ some a
  pub made : (a : ℕ) → 0 < s.strong a → a < s.next_arc
  pub owned : (p : ℕ) → s.live p ≡ true → (a : ℕ) × (0 < s.strong a) × (s.target a ≡ p)
  pub clean : s.misfreed ≡ false

some-inj : (a b : ℕ) → ◌≡◌ {A = Option ℕ} (some a) (some b) → a ≡ b
some-inj a b e = cc

same_target :
    (s : Pools) (a b : ℕ)
    → IsValid s
    → 0 < s.strong a
    → 0 < s.strong b
    → s.target a ≡ s.target b
    → a ≡ b
same_target s a b v h g e =
    some-inj a b (sym (v.noted a h) ∙ ap (λ p. lookup p s.weaks) e ∙ v.noted b g)

-- What a change of a function leaves.
update_same : (f : ℕ → ℕ) (a x : ℕ) → update f a x a ≡ x
update_same f a x = ground arith

update_other : (f : ℕ → ℕ) (a x b : ℕ) → b ≢ a → update f a x b ≡ f b
update_other f a x b h = ground arith

-- A handle that is held behind the drop of the last handle `a`.
held_other :
    (s : Pools) (a b n : ℕ)
    → s.strong a ≡ 1
    → 0 < update s.strong a (s.strong a - 1) b
    → (b ≢ a) × (0 < s.strong b)
held_other s a b n e g = ground arith

held_before : (s : Pools) (a b n : ℕ) → 0 < s.strong a → 0 < update s.strong a n b → 0 < s.strong b
held_before s a b n h g = ground arith

-- Another number of handles, for an `Arc` that keeps at least one.
recount-IsValid :
    (a n : ℕ) (s : Pools)
    → IsValid s
    → 0 < s.strong a
    → 0 < n
    → IsValid (record s { strong = update s.strong a n })
recount-IsValid a n s v h k = record {
  held = λ b g. v.held b (held_before s a b n h g);
  noted = λ b g. v.noted b (held_before s a b n h g);
  made = λ b g. v.made b (held_before s a b n h g);
  owned = λ p g. let (b, c, e) = v.owned p g in (b, ground arith, e);
  clean = v.clean;
}

still_live : (f : ℕ → Bool) (t p : ℕ) → update f t false p ≡ true → (p ≢ t) × (f p ≡ true)
still_live f t p g = ground arith

-- The state behind the drop of the last handle.
last_drop-IsValid :
    (a : ℕ) (s : Pools)
    → IsValid s
    → s.strong a ≡ 1
    → IsValid (mempool_free (s.target a) (record s { strong = update s.strong a (s.strong a - 1) }))
last_drop-IsValid a s v e = record {
  held = λ b g.
      let (n, k) = held_other s a b 0 e g in
      let t : s.target b ≢ s.target a = λ q. n (same_target s b a v k (omega (arith, e)) q) in
      ground (arith, v.held b k);
  noted = λ b g. v.noted b (held_other s a b 0 e g).1;
  made = λ b g. v.made b (held_other s a b 0 e g).1;
  owned = λ p g.
      let (n, l) = still_live s.live (s.target a) p g in
      let (b, c, q) = v.owned p l in
      let d : b ≢ a = λ r. n (sym q ∙ ap s.target r) in (b, ground arith, q);
  clean = ground (arith, v.clean, v.held a (omega (arith, e)));
}

pub drop_arc-IsValid : (a : ℕ) (s : Pools) → IsValid s → 0 < s.strong a → IsValid (drop_arc a s)
unfolding drop_arc
drop_arc-IsValid a s v h = elim (Bool-cases (s.strong a == 1)) [
  | inl e ↦ rw e (last_drop-IsValid a s v (ground arith))
  | inr e ↦ rw e (recount-IsValid a (s.strong a - 1) s v h (ground arith))
]

-- The state with a new pool and its first handle, which the table does not know yet.
abbrev begun : ℕ → Pools → Pools
begun p s = new_arc p (mempool_create (some p) s)

begun_cases :
    (p : ℕ) (s : Pools) (b : ℕ)
    → 0 < (begun p s).strong b
    → (b ≡ s.next_arc) ⊎ ((b ≢ s.next_arc) × (0 < s.strong b))
begun_cases p s b g = elim (Bool-cases (b == s.next_arc)) [
  | inl e ↦ inl (ground arith)
  | inr e ↦ inr (ground arith, ground arith)
]

module _ (p : ℕ) (s : Pools) (v : IsValid s) (h : s.live p ≡ false) where
  begun_held : (b : ℕ) → 0 < (begun p s).strong b → (begun p s).live ((begun p s).target b) ≡ true
  begun_held b g = elim (begun_cases p s b g) [
    | inl e ↦ ground arith
    | inr (n, k) ↦ ground (arith, v.held b k)
  ]

  begun_noted :
      (b : ℕ)
      → 0 < (begun p s).strong b
      → lookup ((begun p s).target b) (insert p s.next_arc s.weaks) ≡ some b
  begun_noted b g = elim (begun_cases p s b g) [
    | inl e ↦
        ap (λ t. lookup t (insert p s.next_arc s.weaks))
          (ap (update s.target s.next_arc p) e ∙ update_same s.target s.next_arc p)
        ∙ lookup-insert_self p s.next_arc s.weaks
        ∙ ap (λ n. some n) (sym e)
    | inr (n, k) ↦
        let d : s.target b ≢ p = λ q. ground (arith, v.held b k, ap s.live q) in
        ap (λ t. lookup t (insert p s.next_arc s.weaks)) (update_other s.target s.next_arc p b n)
        ∙ lookup-insert_ne (s.target b) p s.next_arc s.weaks d
        ∙ v.noted b k
  ]

  begun_made : (b : ℕ) → 0 < (begun p s).strong b → b < suc s.next_arc
  begun_made b g = elim (begun_cases p s b g) [
    | inl e ↦ omega arith
    | inr (n, k) ↦ omega (arith, v.made b k)
  ]

  begun_owned :
      (t : ℕ)
      → (begun p s).live t ≡ true
      → (b : ℕ) × (0 < (begun p s).strong b) × ((begun p s).target b ≡ t)
  begun_owned t g = elim (Bool-cases (t == p)) [
    | inl e ↦ (s.next_arc, ground arith, ground arith)
    | inr e ↦
        let (b, k, q) = v.owned t (ground arith) in
        let n : b ≢ s.next_arc = λ r. omega (arith, v.made b k) in (b, ground arith, ground arith)
  ]

  -- The new pool is freed again.
  abbrev undone : Pools
  undone = mempool_free p (record (begun p s) { strong = update (begun p s).strong s.next_arc 0 })

  undone_lem : drop_arc s.next_arc (begun p s) ≡ undone
  unfolding drop_arc
  undone_lem =
      let one = update_same s.strong s.next_arc 1 in
      let here = update_same s.target s.next_arc p in rw (one, here) refl

  undone_held :
      (b : ℕ) → 0 < undone.strong b → (b ≢ s.next_arc) × (0 < s.strong b) × (s.target b ≢ p)
  undone_held b g =
      let k : 0 < s.strong b = ground arith in
      (ground arith, k, λ q. ground (arith, v.held b k, ap s.live q))

  undone-IsValid : IsValid undone
  undone-IsValid = record {
    held = λ b g. let (n, k, d) = undone_held b g in ground (arith, v.held b k);
    noted = λ b g.
        let (n, k, d) = undone_held b g in
        ap (λ t. lookup t s.weaks) (update_other s.target s.next_arc p b n) ∙ v.noted b k;
    made = λ b g. let (n, k, d) = undone_held b g in omega (arith, v.made b k);
    owned = λ t g.
        let (b, k, q) = v.owned t (ground arith) in
        let n : b ≢ s.next_arc = λ r. omega (arith, v.made b k) in (b, ground arith, ground arith);
    clean = ground (arith, v.clean);
  }

pub new_ref-IsValid :
    (p : ℕ) (s : Pools)
    → IsValid s
    → s.live p ≡ false
    → IsValid (new_ref (some p) (mempool_create (some p) s)).1
unfolding new_ref
new_ref-IsValid p s v h = elim (Bool-cases s.is_poisoned) [
  | inl e ↦
      let q : (new_ref (some p) (mempool_create (some p) s)).1 ≡ drop_arc s.next_arc (begun p s) =
        ground arith in
      subst IsValid (sym (q ∙ undone_lem p s v h)) (undone-IsValid p s v h)
  | inr e ↦
      let q : (new_ref (some p) (mempool_create (some p) s)).1
          ≡ record (begun p s) { weaks = insert p s.next_arc s.weaks } =
        ground arith in
      subst IsValid (sym q) (record {
        held = begun_held p s v h;
        noted = begun_noted p s v h;
        made = begun_made p s v h;
        owned = begun_owned p s v h;
        clean = v.clean;
      })
]

pub lookup_ref-IsValid :
    (p : ℕ) (errno : Error) (s : Pools) → IsValid s → IsValid (lookup_ref (some p) errno s).1
unfolding lookup_ref
lookup_ref-IsValid p errno s v =
    let s' = (lookup_ref (some p) errno s).1 in
    elim (Bool-cases s.is_poisoned) [
      | inl e ↦ let q : s' ≡ s = ground arith in subst IsValid (sym q) v
      | inr e ↦ elim (Option-cases (lookup p s.weaks)) [
        | inl n ↦ let q : s' ≡ s = ground arith in subst IsValid (sym q) v
        | inr (a, n) ↦ elim (Bool-cases (s.strong a == 0)) [
          | inl z ↦ let q : s' ≡ s = ground arith in subst IsValid (sym q) v
          | inr z ↦
              let q : s' ≡ record s { strong = update s.strong a (suc (s.strong a)) } =
                ground arith in
              subst IsValid (sym q)
                (recount-IsValid a (suc (s.strong a)) s v (ground arith) (omega arith))
        ]
      ]
    ]
