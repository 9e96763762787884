-- ===== src/Base/Maps.antt =====
-- `HashMap` and `BTreeMap` with numeric keys as association lists; `insert` leaves one entry to
-- a key, so the length is the number of entries.
use Prim.Native.Nat.{ℕ, zero, suc, ◌≤◌, ◌<◌}
use mathlib.Core.Path.{◌≡◌, refl, sym, ◌∙◌}
use mathlib.Core.Logic.{◌≢◌, inl, inr}
use mathlib.Core.List.{List, [], ◌∷◌}
use mathlib.Core.Option.{Option, none, some}
use native.Mathlib.Omega.{arith}
use async_dpdk.Base.Tests.{◌==◌, if◌then◌else◌, Option-cases}
use async_dpdk.Base.Lists.{length}

abbrev pub Dict {ℓ} : Type ℓ → Type ℓ
Dict A = List (ℕ × A)

module _ {ℓ} {A : Type ℓ} where
  -- `remove`
  abbrev pub erase : ℕ → Dict A → Dict A
  erase q [] = []
  erase q ((key, x) ∷ more) = let rest = erase q more in if q == key then rest else (key, x) ∷ rest

  -- `insert`
  abbrev pub insert : ℕ → A → Dict A → Dict A
  insert q x m = (q, x) ∷ erase q m

  -- `get`
  abbrev pub lookup : ℕ → Dict A → Option A
  lookup q [] = none
  lookup q ((key, x) ∷ more) = let rest = lookup q more in if q == key then some x else rest

  pub lookup-erase_self : (q : ℕ) (m : Dict A) → lookup q (erase q m) ≡ none
  lookup-erase_self q [] = refl
  lookup-erase_self q (x ∷ more) = ground (arith, lookup-erase_self q more)

  pub lookup-erase_ne : (p q : ℕ) (m : Dict A) → p ≢ q → lookup p (erase q m) ≡ lookup p m
  lookup-erase_ne p q [] n = refl
  lookup-erase_ne p q (x ∷ more) n = ground (arith, lookup-erase_ne p q more n)

  pub lookup-insert_ne :
      (p q : ℕ) (x : A) (m : Dict A) → p ≢ q → lookup p (insert q x m) ≡ lookup p m
  lookup-insert_ne p q x m n = ground (arith, lookup-erase_ne p q m n)

  pub lookup-insert_self : (q : ℕ) (x : A) (m : Dict A) → lookup q (insert q x m) ≡ some x
  lookup-insert_self q x m = ground arith

  pub erase_of_absent : (k : ℕ) (d : Dict A) → lookup k d ≡ none → erase k d ≡ d
  erase_of_absent k [] h = refl
  erase_of_absent k (e ∷ d) h = ground (arith, erase_of_absent k d)

  pub erase-insert : (k : ℕ) (v : A) (d : Dict A) → lookup k d ≡ none → erase k (insert k v d) ≡ d
  erase-insert k v d h = ground (arith, erase_of_absent k d h)

  pub length-erase-le : (k : ℕ) (d : Dict A) → length (erase k d) ≤ length d
  length-erase-le k [] = omega arith
  length-erase-le k (e ∷ d) = ground (arith, length-erase-le k d)

  pub length-erase-lt : (k : ℕ) (d : Dict A) → lookup k d ≢ none → length (erase k d) < length d
  length-erase-lt k [] h = absurd (h refl)
  length-erase-lt k (e ∷ d) h = ground (arith, length-erase-le k d, length-erase-lt k d)

  -- A dictionary with fewer than `n` entries misses a key from 1 to `n`.
  pub absent_key :
      (n : ℕ) (d : Dict A) → length d < n → (f : ℕ) × (1 ≤ f) × (f ≤ n) × (lookup f d ≡ none)
  absent_key zero d h = elim h [ ]
  absent_key (suc n) d h = elim (Option-cases (lookup (suc n) d)) [
    | inl e ↦ (suc n, omega arith, omega arith, e)
    | inr (v, e) ↦
        let shorter = length-erase-lt (suc n) d (λ q. cc) in
        let (f, lo, hi, q) = absent_key n (erase (suc n) d) (omega arith) in
        (f, lo, omega arith, sym (lookup-erase_ne f (suc n) d (omega arith)) ∙ q)
  ]

-- A function on numbers, changed at one of them.
abbrev pub update {ℓ} : {A : Type ℓ} → (ℕ → A) → ℕ → A → ℕ → A
update f k x j = if j == k then x else f j

module _ {ℓ} {A : Type ℓ} where
  pub update_self : (f : ℕ → A) (k : ℕ) (x : A) → update f k x k ≡ x
  update_self f k x = ground arith

  pub update_ne : (f : ℕ → A) (k : ℕ) (x : A) (j : ℕ) → k ≢ j → update f k x j ≡ f j
  update_ne f k x j n = ground arith
