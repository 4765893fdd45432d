-- ===== src/Server/Delta/Cuts.antt =====
-- Lists in strictly ascending order of a number, and what is taken and dropped of a list: the arithmetic
-- of the pages of server/src/delta/routes.ts.
use obsidian_syncserver.Prelude.{
  ℕ, zero, suc, ◌+◌, ◌≤◌, ◌<◌, ◌≡◌, refl, ap, ◌∙◌, subst⁻¹, ◌⊎◌, inl, inr, Bool, true, false, List,
  [], ◌∷◌, ◌++◌, Elem, map, take, drop, filter, length, ltb, arith, sort_by, place, Bool-cases,
  if◌then◌else◌, Sorted, sort_by-Sorted, filter-Elem, filter-all, lt→ltb, ltb→lt, str_eq,
}
use obsidian_syncserver.Server.Delta.{last_rev}

pub not_below : (a b : ℕ) → b ≤ a → ltb a b ≡ false
not_below a b l = ground (arith, ltb→lt a b)

module _ {A : Type 0} (rev : A → ℕ) where
  -- In strictly ascending order of revision.
  abbrev pub Ascending : List A → Type 0
  Ascending [] = Unit
  Ascending (x ∷ xs) = ((y : A) → Elem y xs → rev x < rev y) × Ascending xs

  pub filter-Ascending : (p : A → Bool) (xs : List A) → Ascending xs → Ascending (filter p xs)
  filter-Ascending p [] s = tt
  filter-Ascending p (x ∷ xs) (low, s) = elim (Bool-cases (p x)) [
    | inl t ↦ rw t ((λ y m. low y (filter-Elem p y xs m).0), filter-Ascending p xs s)
    | inr f ↦ rw f (filter-Ascending p xs s)
  ]

  pub last_rev-take :
      (n low otherwise : ℕ) (x : A) (xs : List A)
      → n < length (x ∷ xs)
      → low < rev x
      → Ascending (x ∷ xs)
      → low < last_rev rev otherwise (take (suc n) (x ∷ xs))
  unfolding last_rev
  last_rev-take zero low otherwise x xs l h s = h
  last_rev-take (suc n) low otherwise x [] l h s = absurd (omega arith)
  last_rev-take (suc n) low otherwise x (y ∷ ys) l h (up, s) =
      let step : rev x < rev y = up y (inl refl) in
      last_rev-take n low (rev x) y ys (omega arith) (omega arith) s

  filter-skip : (p : A → Bool) (x : A) (xs : List A) → p x ≡ false → filter p (x ∷ xs) ≡ filter p xs
  filter-skip p x xs f = rw f refl

  -- Cutting a list at the revision of its n-th row.
  pub filter-last :
      (n otherwise : ℕ) (xs : List A)
      → n < length xs
      → Ascending xs
      → filter (λ x. ltb (last_rev rev otherwise (take (suc n) xs)) (rev x)) xs ≡ drop (suc n) xs
  unfolding last_rev
  filter-last n otherwise [] l s = refl
  filter-last zero otherwise (x ∷ xs) l (up, s) =
      filter-skip (λ y. ltb (rev x) (rev y)) x xs (not_below (rev x) (rev x) (omega arith))
      ∙ filter-all _ xs (λ y m. lt→ltb (rev x) (rev y) (up y m))
  filter-last (suc n) otherwise (x ∷ []) l s = absurd (omega arith)
  filter-last (suc n) otherwise (x ∷ (y ∷ ys)) l (up, s) =
      let last = last_rev rev (rev x) (take (suc n) (y ∷ ys)) in
      let past : rev x < last =
        last_rev-take n (rev x) (rev x) y ys (omega arith) (up y (inl refl)) s in
      filter-skip (λ z. ltb last (rev z)) x (y ∷ ys) (not_below last (rev x) (omega arith))
      ∙ filter-last n (rev x) (y ∷ ys) (omega arith) s

module _ {A : Type 0} (le : A → A → Bool) (total : (a b : A) → le a b ≡ false → le b a ≡ true)
    (trans : (a b c : A) → le a b ≡ true → le b c ≡ true → le a c ≡ true) (p : A → Bool) where
  place-first :
      (x : A) (ys : List A) → ((y : A) → Elem y ys → le x y ≡ true) → place le x ys ≡ x ∷ ys
  unfolding place
  place-first x [] h = refl
  place-first x (y ∷ ys) h = rw (place, h y (inl refl)) refl

  filter-place :
      (x : A) (ys : List A)
      → Sorted le ys
      → filter p (place le x ys) ≡ (if p x then place le x (filter p ys) else filter p ys)
  unfolding place
  filter-place x [] s = ground arith
  filter-place x (y ∷ ys) (low, s) =
      let rest = filter-place x ys s in
      let inside : le x y ≡ true → (z : A) → Elem z (filter p (y ∷ ys)) → le x z ≡ true =
        λ t z m. reach z t (filter-Elem p z (y ∷ ys) m).0 in
      elim (Bool-cases (le x y)) [
        | inl t ↦ ground (arith, t, place-first x (filter p (y ∷ ys)) (inside t))
        | inr f ↦ ground (arith, f, rest)
      ]
    where
      reach : (z : A) → le x y ≡ true → (z ≡ y) ⊎ Elem z ys → le x z ≡ true
      reach z t (inl e) = subst⁻¹ (λ w. le x w ≡ true) e t
      reach z t (inr m) = trans x y z t (low z m)

  pub filter-sort_by : (xs : List A) → filter p (sort_by le xs) ≡ sort_by le (filter p xs)
  unfolding sort_by
  filter-sort_by [] = refl
  filter-sort_by (x ∷ xs) =
      filter-place x (sort_by le xs) (sort_by-Sorted le total trans xs)
      ∙ ground (arith, filter-sort_by xs)

module _ {A B : Type 0} (f : A → B) where
  pub length-map : (xs : List A) → length (map f xs) ≡ length xs
  length-map [] = refl
  length-map (x ∷ xs) = ap suc (length-map xs)

  pub take-map : (n : ℕ) (xs : List A) → take n (map f xs) ≡ map f (take n xs)
  take-map zero xs = refl
  take-map (suc n) [] = refl
  take-map (suc n) (x ∷ xs) = ap (λ ys. f x ∷ ys) (take-map n xs)

module _ {A : Type 0} where
  pub take-take : (n : ℕ) (xs : List A) → take n (take (suc n) xs) ≡ take n xs
  take-take zero xs = refl
  take-take (suc n) [] = refl
  take-take (suc n) (x ∷ xs) = ap (λ ys. x ∷ ys) (take-take n xs)

  pub take-all : (n : ℕ) (xs : List A) → length xs ≤ n → take n xs ≡ xs
  take-all zero [] l = refl
  take-all zero (x ∷ xs) l = absurd (omega arith)
  take-all (suc n) [] l = refl
  take-all (suc n) (x ∷ xs) l = ap (λ ys. x ∷ ys) (take-all n xs (omega arith))

  pub take-drop : (n : ℕ) (xs : List A) → take n xs ++ drop n xs ≡ xs
  take-drop zero xs = refl
  take-drop (suc n) [] = refl
  take-drop (suc n) (x ∷ xs) = ap (λ ys. x ∷ ys) (take-drop n xs)

  pub length-drop : (n : ℕ) (xs : List A) → n < length xs → length (drop n xs) + n ≡ length xs
  length-drop zero xs l = omega arith
  length-drop (suc n) [] l = absurd (omega arith)
  length-drop (suc n) (x ∷ xs) l = omega (arith, length-drop n xs (omega arith))

  pub length-take_more : (n : ℕ) (xs : List A) → n < length xs → length (take (suc n) xs) ≡ suc n
  length-take_more zero [] l = absurd (omega arith)
  length-take_more zero (x ∷ xs) l = refl
  length-take_more (suc n) [] l = absurd (omega arith)
  length-take_more (suc n) (x ∷ xs) l = ap suc (length-take_more n xs (omega arith))

pub map-append :
    {A B : Type 0} (f : A → B) (xs ys : List A) → map f (xs ++ ys) ≡ map f xs ++ map f ys
map-append f [] ys = refl
map-append f (x ∷ xs) ys = ap (λ zs. f x ∷ zs) (map-append f xs ys)
