-- ===== src/Prelude/Lists.antt =====
-- Lists measured by native numbers and searched by Boolean tests, under the library's names.
use Prim.Native.Nat.{ℕ, zero, suc, ◌+◌, ◌≤◌}
use mathlib.Core.Path.{◌≡◌, refl, ap, subst, subst⁻¹}
use mathlib.Core.Logic.{◌⊎◌, ◌↔◌, inl, inr}
use mathlib.Core.Bool.{Bool, true, false, not, ◌&&◌, ◌||◌}
use mathlib.Core.List.{List, [], ◌∷◌, ◌++◌, map}
use native.Mathlib.Omega.{arith}
use obsidian_syncserver.Prelude.Tests.{if◌then◌else◌, Bool-cases}

module _ {ℓ} {A : Type ℓ} where
  abbrev pub length : List A → ℕ
  length [] = 0
  length (x ∷ xs) = suc (length xs)

  abbrev pub take : ℕ → List A → List A
  take zero xs = []
  take (suc n) [] = []
  take (suc n) (x ∷ xs) = x ∷ take n xs

  abbrev pub drop : ℕ → List A → List A
  drop zero xs = xs
  drop (suc n) [] = []
  drop (suc n) (x ∷ xs) = drop n xs

  abbrev pub filter : (A → Bool) → List A → List A
  filter p [] = []
  filter p (x ∷ xs) = let rest = filter p xs in if p x then x ∷ rest else rest

  -- `every` and `some` of the source.
  abbrev pub all : (A → Bool) → List A → Bool
  all p [] = true
  all p (x ∷ xs) = p x && all p xs

  abbrev pub any : (A → Bool) → List A → Bool
  any p [] = false
  any p (x ∷ xs) = p x || any p xs

  abbrev pub All {κ} : (A → Type κ) → List A → Type κ
  All P [] = Unit
  All P (x ∷ xs) = P x × All P xs

-- Membership by recursion: it computes to sums of equations.
abbrev pub Elem : {A : Type 0} → A → List A → Type 0
Elem a [] = ⊥
Elem a (x ∷ xs) = (a ≡ x) ⊎ Elem a xs

module _ {ℓ} {A : Type ℓ} where
  pub length-append : (xs ys : List A) → length (xs ++ ys) ≡ length xs + length ys
  length-append [] ys = omega arith
  length-append (x ∷ xs) ys = omega (arith, length-append xs ys)

  pub length-filter : (p : A → Bool) (xs : List A) → length (filter p xs) ≤ length xs
  length-filter p [] = omega arith
  length-filter p (x ∷ xs) = ground (arith, length-filter p xs)

module _ {A : Type 0} where
  pub Elem-filter :
      (p : A → Bool) (a : A) (xs : List A) → Elem a xs → p a ≡ true → Elem a (filter p xs)
  Elem-filter p a [] m h = m
  Elem-filter p a (x ∷ xs) (inl e) h =
      let h' : p x ≡ true = subst (λ y. p y ≡ true) e h in rw h' (inl e)
  Elem-filter p a (x ∷ xs) (inr m) h = elim (Bool-cases (p x)) [
    | inl t ↦ rw t (inr (Elem-filter p a xs m h))
    | inr f ↦ rw f (Elem-filter p a xs m h)
  ]

  pub filter-Elem :
      (p : A → Bool) (a : A) (xs : List A) → Elem a (filter p xs) → Elem a xs × (p a ≡ true)
  filter-Elem p a [] m = absurd m
  filter-Elem p a (x ∷ xs) m = elim (Bool-cases (p x)) [
    | inl t ↦ step t (filter-Elem p a xs) (rw t at m)
    | inr f ↦ let (i, h) = filter-Elem p a xs (rw f at m) in (inr i, h)
  ]
    where
      step :
          p x ≡ true
          → (Elem a (filter p xs) → Elem a xs × (p a ≡ true))
          → (a ≡ x) ⊎ Elem a (filter p xs)
          → ((a ≡ x) ⊎ Elem a xs) × (p a ≡ true)
      step t rest (inl e) = (inl e, subst⁻¹ (λ y. p y ≡ true) e t)
      step t rest (inr i) = let (j, h) = rest i in (inr j, h)

  pub All_at {κ} : (P : A → Type κ) (xs : List A) (a : A) → All P xs → Elem a xs → P a
  All_at P [] a h m = absurd m
  All_at P (x ∷ xs) a h (inl e) = subst⁻¹ P e h.0
  All_at P (x ∷ xs) a h (inr m) = All_at P xs a h.1 m

  pub All-intro {κ} : (P : A → Type κ) (xs : List A) → ((a : A) → Elem a xs → P a) → All P xs
  All-intro P [] f = tt
  All-intro P (x ∷ xs) f = (f x (inl refl), All-intro P xs (λ a m. f a (inr m)))

  pub all_at : (p : A → Bool) (xs : List A) (a : A) → all p xs ≡ true → Elem a xs → p a ≡ true
  all_at p [] a h m = absurd m
  all_at p (x ∷ xs) a h (inl e) = subst⁻¹ (λ y. p y ≡ true) e (ground arith)
  all_at p (x ∷ xs) a h (inr m) = all_at p xs a (ground arith) m

  pub any_none : (p : A → Bool) (xs : List A) (a : A) → any p xs ≡ false → Elem a xs → p a ≡ false
  any_none p [] a h m = absurd m
  any_none p (x ∷ xs) a h (inl e) = subst⁻¹ (λ y. p y ≡ false) e (ground arith)
  any_none p (x ∷ xs) a h (inr m) = any_none p xs a (ground arith) m

  pub any_found :
      (p : A → Bool) (xs : List A) → any p xs ≡ true → (a : A) × Elem a xs × (p a ≡ true)
  any_found p [] h = absurd (cc)
  any_found p (x ∷ xs) h = elim (Bool-cases (p x)) [
    | inl t ↦ (x, inl refl, t)
    | inr f ↦ let (a, m, t) = any_found p xs (ground arith) in (a, inr m, t)
  ]

  pub any_of : (p : A → Bool) (xs : List A) (a : A) → Elem a xs → p a ≡ true → any p xs ≡ true
  any_of p [] a m t = absurd m
  any_of p (x ∷ xs) a (inl e) t = let t' : p x ≡ true = subst (λ y. p y ≡ true) e t in ground arith
  any_of p (x ∷ xs) a (inr m) t = ground (arith, any_of p xs a m t)

  pub any_nowhere :
      (p : A → Bool) (xs : List A) → ((x : A) → Elem x xs → p x ≡ true → ⊥) → any p xs ≡ false
  any_nowhere p xs none_there = elim (Bool-cases (any p xs)) [
    | inr f ↦ f
    | inl h ↦ let (x, m, t) = any_found p xs h in absurd (none_there x m t)
  ]

  pub Elem-append : (a : A) (xs ys : List A) → Elem a (xs ++ ys) → Elem a xs ⊎ Elem a ys
  Elem-append a [] ys m = inr m
  Elem-append a (x ∷ xs) ys (inl e) = inl (inl e)
  Elem-append a (x ∷ xs) ys (inr m) = elim (Elem-append a xs ys m) [
    | inl l ↦ inl (inr l)
    | inr r ↦ inr r
  ]

  pub Elem-append_left : (a : A) (xs ys : List A) → Elem a xs → Elem a (xs ++ ys)
  Elem-append_left a [] ys m = absurd m
  Elem-append_left a (x ∷ xs) ys (inl e) = inl e
  Elem-append_left a (x ∷ xs) ys (inr m) = inr (Elem-append_left a xs ys m)

  pub Elem-append_right : (a : A) (xs ys : List A) → Elem a ys → Elem a (xs ++ ys)
  Elem-append_right a [] ys m = m
  Elem-append_right a (x ∷ xs) ys m = inr (Elem-append_right a xs ys m)

  pub all_of : (p : A → Bool) (xs : List A) → ((a : A) → Elem a xs → p a ≡ true) → all p xs ≡ true
  all_of p [] f = refl
  all_of p (x ∷ xs) f = ground (arith, f x (inl refl), all_of p xs (λ a m. f a (inr m)))

  pub filter-all :
      (p : A → Bool) (xs : List A) → ((a : A) → Elem a xs → p a ≡ true) → filter p xs ≡ xs
  filter-all p [] f = refl
  filter-all p (x ∷ xs) f = ground (arith, f x (inl refl), filter-all p xs (λ a m. f a (inr m)))

  pub filter-none :
      (p : A → Bool) (xs : List A) → ((a : A) → Elem a xs → p a ≡ false) → filter p xs ≡ []
  filter-none p [] f = refl
  filter-none p (x ∷ xs) f = ground (arith, f x (inl refl), filter-none p xs (λ a m. f a (inr m)))

  pub any_iff :
      (p : A → Bool) (xs : List A) → (any p xs ≡ true) ↔ ((a : A) × Elem a xs × (p a ≡ true))
  any_iff p xs = (any_found p xs, λ (a, m, t). any_of p xs a m t)

module _ {ℓ} {A : Type ℓ} where
  pub filter_ext :
      (p q : A → Bool) (xs : List A) → ((a : A) → p a ≡ q a) → filter p xs ≡ filter q xs
  filter_ext p q [] f = refl
  filter_ext p q (x ∷ xs) f = ground (arith, f x, filter_ext p q xs f)

  pub filter-filter :
      (p q : A → Bool) (xs : List A) → filter q (filter p xs) ≡ filter (λ a. p a && q a) xs
  filter-filter p q [] = refl
  filter-filter p q (x ∷ xs) = ground (arith, filter-filter p q xs)

  -- Two rounds of removal count what one does.
  pub length-filter_twice :
      (p q : A → Bool) (xs : List A)
      → length (filter p xs) + length (filter q (filter (λ a. not (p a)) xs))
        ≡ length (filter (λ a. p a || q a) xs)
  length-filter_twice p q [] = refl
  length-filter_twice p q (x ∷ xs) = ground (arith, length-filter_twice p q xs)

  pub any-append : (p : A → Bool) (xs ys : List A) → any p (xs ++ ys) ≡ (any p xs || any p ys)
  any-append p [] ys = refl
  any-append p (x ∷ xs) ys = ground (arith, any-append p xs ys)

  pub append_nil : (xs : List A) → xs ++ [] ≡ xs
  append_nil [] = refl
  append_nil (x ∷ xs) = ap (λ ys. x ∷ ys) (append_nil xs)

  pub append_assoc : (xs ys zs : List A) → (xs ++ ys) ++ zs ≡ xs ++ (ys ++ zs)
  append_assoc [] ys zs = refl
  append_assoc (x ∷ xs) ys zs = ap (λ ws. x ∷ ws) (append_assoc xs ys zs)

module _ {A B : Type 0} (f : A → B) where
  pub Elem-map : (a : A) (xs : List A) → Elem a xs → Elem (f a) (map f xs)
  Elem-map a [] m = absurd m
  Elem-map a (x ∷ xs) (inl e) = inl (ap f e)
  Elem-map a (x ∷ xs) (inr m) = inr (Elem-map a xs m)

  pub map-Elem : (b : B) (xs : List A) → Elem b (map f xs) → (a : A) × Elem a xs × (b ≡ f a)
  map-Elem b [] m = absurd m
  map-Elem b (x ∷ xs) (inl e) = (x, inl refl, e)
  map-Elem b (x ∷ xs) (inr m) = let (a, i, e) = map-Elem b xs m in (a, inr i, e)

-- The two lists are related row by row.
abbrev pub Pairs : {A : Type 0} → (A → A → Type 0) → List A → List A → Type 0
Pairs R [] [] = Unit
Pairs R [] (y ∷ ys) = ⊥
Pairs R (x ∷ xs) [] = ⊥
Pairs R (x ∷ xs) (y ∷ ys) = R x y × Pairs R xs ys
