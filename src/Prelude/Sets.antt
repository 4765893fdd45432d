-- ===== src/Prelude/Sets.antt =====
-- `Set` as a list in insertion order, the stable `Array.sort`, and the early return of a loop.
use mathlib.Core.Path.{◌≡◌, refl, subst, subst⁻¹}
use mathlib.Core.Bool.{Bool, true, false, not, ◌||◌}
use mathlib.Core.List.{List, [], ◌∷◌, ◌++◌}
use mathlib.Core.Option.{Option, none, some}
use mathlib.Core.Logic.{inl, inr, ◌⊎◌}
use native.Mathlib.Omega.{arith}
use obsidian_syncserver.Prelude.Tests.{Eq, ◌==◌, if◌then◌else◌, Bool-cases}
use obsidian_syncserver.Prelude.Lists.{Elem, any}
use obsidian_syncserver.Prelude.Text.{Str}

-- `if (b) continue;` or an early `return undefined`, before `rest`.
abbrev pub unless {ℓ} : {A : Type ℓ} → Bool → Option A → Option A
unless true rest = none
unless false rest = rest

-- The truth of a text that may be missing: a missing one and the empty one are false.
abbrev pub truthy : Option Str → Bool
truthy none = false
truthy (some []) = false
truthy (some (c ∷ s)) = true

module _ {A : Type 0} ⦃e : Eq A⦄ where
  -- `set.has(a)`
  unfoldable pub contains : A → List A → Bool
  contains a [] = false
  contains a (x ∷ xs) = x == a || contains a xs

  -- `set.add(a)`
  unfoldable pub add_to_set : A → List A → List A
  add_to_set a xs = if contains a xs then xs else xs ++ (a ∷ [])

  pub contains→Elem : (a : A) (xs : List A) → contains a xs ≡ true → Elem a xs
  unfolding contains
  contains→Elem a [] h = cc
  contains→Elem a (x ∷ xs) h = elim (Bool-cases (x == a)) [
    | inl t ↦ inl (cc ((e.same_iff x a).0 t))
    | inr f ↦ inr (contains→Elem a xs (ground arith))
  ]

  pub Elem→contains : (a : A) (xs : List A) → Elem a xs → contains a xs ≡ true
  unfolding contains
  Elem→contains a [] m = absurd m
  Elem→contains a (x ∷ xs) (inl p) = ground (arith, e.same_iff x a)
  Elem→contains a (x ∷ xs) (inr m) = ground (arith, Elem→contains a xs m)

  pub contains-append :
      (a : A) (xs ys : List A) → contains a (xs ++ ys) ≡ (contains a xs || contains a ys)
  unfolding contains
  contains-append a [] ys = refl
  contains-append a (x ∷ xs) ys = ground (arith, contains-append a xs ys)

-- A stable insertion sort; `le a b` says that `a` may stand before `b`.
module _ {A : Type 0} (le : A → A → Bool) where
  unfoldable pub place : A → List A → List A
  place x [] = x ∷ []
  place x (y ∷ ys) = let rest = place x ys in if le x y then x ∷ (y ∷ ys) else y ∷ rest

  unfoldable pub sort_by : List A → List A
  sort_by [] = []
  sort_by (x ∷ xs) = place x (sort_by xs)

  pub place-Elem : (x a : A) (ys : List A) → Elem a (place x ys) → (a ≡ x) ⊎ Elem a ys
  unfolding place
  place-Elem x a [] m = m
  place-Elem x a (y ∷ ys) m = elim (Bool-cases (le x y)) [
    | inl t ↦ rw (t, place) at m
    | inr f ↦ step (place-Elem x a ys) (rw (f, place) at m)
  ]
    where
      step :
          (Elem a (place x ys) → (a ≡ x) ⊎ Elem a ys)
          → (a ≡ y) ⊎ Elem a (place x ys)
          → (a ≡ x) ⊎ (a ≡ y) ⊎ Elem a ys
      step rest (inl p) = inr (inl p)
      step rest (inr p) = elim (rest p) [ inl q ↦ inl q | inr q ↦ inr (inr q) ]

  pub Elem-place : (x a : A) (ys : List A) → (a ≡ x) ⊎ Elem a ys → Elem a (place x ys)
  unfolding place
  Elem-place x a [] m = m
  Elem-place x a (y ∷ ys) m = elim (Bool-cases (le x y)) [
    | inl t ↦ rw (t, place) m
    | inr f ↦ rw (f, place) (step (Elem-place x a ys) m)
  ]
    where
      step :
          ((a ≡ x) ⊎ Elem a ys → Elem a (place x ys))
          → (a ≡ x) ⊎ (a ≡ y) ⊎ Elem a ys
          → (a ≡ y) ⊎ Elem a (place x ys)
      step rest (inl p) = inr (rest (inl p))
      step rest (inr (inl p)) = inl p
      step rest (inr (inr p)) = inr (rest (inr p))

  pub sort_by-Elem : (a : A) (xs : List A) → Elem a (sort_by xs) → Elem a xs
  unfolding sort_by
  sort_by-Elem a [] m = m
  sort_by-Elem a (x ∷ xs) m = elim (place-Elem x a (sort_by xs) m) [
    | inl p ↦ inl p
    | inr p ↦ inr (sort_by-Elem a xs p)
  ]

  pub Elem-sort_by : (a : A) (xs : List A) → Elem a xs → Elem a (sort_by xs)
  unfolding sort_by
  Elem-sort_by a [] m = m
  Elem-sort_by a (x ∷ xs) (inl p) = Elem-place x a (sort_by xs) (inl p)
  Elem-sort_by a (x ∷ xs) (inr p) = Elem-place x a (sort_by xs) (inr (Elem-sort_by a xs p))

module _ {A : Type 0} (le : A → A → Bool) (p : A → Bool) where
  any-place : (x : A) (ys : List A) → any p (place le x ys) ≡ (p x || any p ys)
  unfolding place
  any-place x [] = refl
  any-place x (y ∷ ys) = ground (arith, any-place x ys)

  pub any-sort_by : (xs : List A) → any p (sort_by le xs) ≡ any p xs
  unfolding sort_by
  any-sort_by [] = refl
  any-sort_by (x ∷ xs) = ground (arith, any-place x (sort_by le xs), any-sort_by xs)

module _ {A : Type 0} ⦃e : Eq A⦄ where
  pub contains-add_to_set :
      (d a : A) (xs : List A) → contains d (add_to_set a xs) ≡ (contains d xs || (a == d))
  unfolding add_to_set contains
  contains-add_to_set d a xs = elim (Bool-cases (contains a xs)) [
    | inr f ↦ rw (f, contains-append d xs (a ∷ [])) (ground arith)
    | inl t ↦ elim (Bool-cases (a == d)) [
      | inr g ↦ rw (t, g) (ground arith)
      | inl g ↦
          let h : contains d xs ≡ true =
            subst (λ x. contains x xs ≡ true) ((e.same_iff a d).0 g) t in
          rw (t, g, h)
    ]
  ]

-- What an early return that was not taken tells.
pub unless-some {ℓ} :
    {A : Type ℓ} (b : Bool) (rest : Option A) {a : A}
    → unless b rest ≡ some a
    → (b ≡ false) × (rest ≡ some a)
unless-some true rest h = cc
unless-some false rest h = (refl, h)

-- What a step that fails on `b` gives where it does not fail.
pub not_failed {ℓ} :
    {A : Type ℓ} (b : Bool) (x s : A) → (if b then none else some x) ≡ some s → s ≡ x
not_failed true x s h = cc
not_failed false x s h = cc

pub not-false : (b : Bool) → not b ≡ false → b ≡ true
not-false b h = ground arith

pub or_false : (a b : Bool) → (a || b) ≡ false → (a ≡ false) × (b ≡ false)
or_false a b h = ground arith

-- Each member may stand before all that follow it.
abbrev pub Sorted : {A : Type 0} → (A → A → Bool) → List A → Type 0
Sorted le [] = Unit
Sorted le (x ∷ xs) = ((y : _) → Elem y xs → le x y ≡ true) × Sorted le xs

module _ {A : Type 0} (le : A → A → Bool) (total : (a b : A) → le a b ≡ false → le b a ≡ true)
    (trans : (a b c : A) → le a b ≡ true → le b c ≡ true → le a c ≡ true) where
  place-Sorted : (x : A) (ys : List A) → Sorted le ys → Sorted le (place le x ys)
  unfolding place
  place-Sorted x [] s = (λ y m. absurd m, tt)
  place-Sorted x (y ∷ ys) (low, s) = elim (Bool-cases (le x y)) [
    | inl t ↦ rw (t, place) ((λ z m. before z t m), (low, s))
    | inr f ↦ rw (f, place) ((λ z m. after z f (place-Elem le x z ys m)), place-Sorted x ys s)
  ]
    where
      before : (z : A) → le x y ≡ true → (z ≡ y) ⊎ Elem z ys → le x z ≡ true
      before z t (inl e) = subst⁻¹ (λ w. le x w ≡ true) e t
      before z t (inr m) = trans x y z t (low z m)

      after : (z : A) → le x y ≡ false → (z ≡ x) ⊎ Elem z ys → le y z ≡ true
      after z f (inl e) = subst⁻¹ (λ w. le y w ≡ true) e (total x y f)
      after z f (inr m) = low z m

  pub sort_by-Sorted : (xs : List A) → Sorted le (sort_by le xs)
  unfolding sort_by
  sort_by-Sorted [] = tt
  sort_by-Sorted (x ∷ xs) = place-Sorted x (sort_by le xs) (sort_by-Sorted xs)
