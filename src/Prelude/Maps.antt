-- ===== src/Prelude/Maps.antt =====
-- `Map` and plain objects used as dictionaries, keyed by text, in insertion order.
use mathlib.Core.Path.{◌≡◌, refl, subst}
use mathlib.Core.Bool.{Bool, true, false}
use mathlib.Core.List.{List, [], ◌∷◌}
use mathlib.Core.Option.{Option, none, some}
use native.Mathlib.Omega.{arith}
use mathlib.Core.Logic.{inl, inr}
use obsidian_syncserver.Prelude.Lists.{filter}
use obsidian_syncserver.Prelude.Tests.{◌==◌, if◌then◌else◌, Bool-cases}
use obsidian_syncserver.Prelude.Text.{Str, str_beq, str_beq_iff, str_eq}

abbrev pub Dict {ℓ} : Type ℓ → Type ℓ
Dict V = List (Str × V)

module _ {ℓ} {V : Type ℓ} where
  unfoldable pub lookup : Str → Dict V → Option V
  lookup k ((key, value) ∷ rest) = if key == k then some value else lookup k rest
  lookup k [] = none

  -- `map.set(k, v)`: a key keeps its place, a new one goes to the end.
  unfoldable pub insert : Str → V → Dict V → Dict V
  insert k v ((key, value) ∷ rest) =
      let later = insert k v rest in if key == k then (key, v) ∷ rest else (key, value) ∷ later
  insert k v [] = (k, v) ∷ []

  -- `map.delete(k)`
  unfoldable pub erase : Str → Dict V → Dict V
  erase k [] = []
  erase k ((j, w) ∷ m) = let rest = erase k m in if j == k then rest else (j, w) ∷ rest

  -- `map.has(k)`
  unfoldable pub has : Str → Dict V → Bool
  has k [] = false
  has k ((j, v) ∷ m) = if j == k then true else has k m

  abbrev pub keys : Dict V → List Str
  keys [] = []
  keys ((k, v) ∷ m) = k ∷ keys m

  -- A key stands once, as in every `Map`.
  abbrev pub NodupKeys : Dict V → Type 0
  NodupKeys [] = Unit
  NodupKeys ((k, v) ∷ m) = (has k m ≡ false) × NodupKeys m

  pub lookup-insert :
      (key other : Str) (value : V) (dict : Dict V)
      → lookup other (insert key value dict)
        ≡ (if key == other then some value else lookup other dict)
  unfolding insert lookup
  lookup-insert key other value ((first, old) ∷ rest) = ground (
    arith,
    lookup-insert key other value rest,
    str_beq_iff first key,
    str_beq_iff first other,
    str_beq_iff key other,
  )
  lookup-insert key other value [] = refl

  pub lookup-erase :
      (k j : Str) (m : Dict V) → lookup j (erase k m) ≡ (if k == j then none else lookup j m)
  unfolding lookup erase
  lookup-erase k j [] = ground arith
  lookup-erase k j ((i, w) ∷ m) =
      ground (arith, str_beq_iff k j, str_beq_iff i k, str_beq_iff i j, lookup-erase k j m)

  pub has-eq-lookup :
      (k : Str) (m : Dict V) → has k m ≡ elim (lookup k m) [ none ↦ false | some v ↦ true ]
  unfolding has lookup
  has-eq-lookup k [] = refl
  has-eq-lookup k ((j, v) ∷ m) = ground (arith, has-eq-lookup k m)

  pub has-insert :
      (k j : Str) (v : V) (m : Dict V) → has j (insert k v m) ≡ (if k == j then true else has j m)
  unfolding has insert
  has-insert k j v [] = refl
  has-insert k j v ((i, w) ∷ m) =
      ground (arith, str_beq_iff k j, str_beq_iff i k, str_beq_iff i j, has-insert k j v m)

  pub insert-NodupKeys : (k : Str) (v : V) (m : Dict V) → NodupKeys m → NodupKeys (insert k v m)
  unfolding has insert
  insert-NodupKeys k v [] n = (refl, tt)
  insert-NodupKeys k v ((j, w) ∷ m) (fresh, n) =
      ground (arith, insert-NodupKeys k v m n, has-insert k j v m, str_beq_iff j k, str_beq_iff k j)

  pub lookup-insert_self : (k : Str) (v : V) (m : Dict V) → lookup k (insert k v m) ≡ some v
  lookup-insert_self k v m = rw (lookup-insert, (str_beq_iff k k).1 refl)

  pub lookup-insert_ne :
      (k j : Str) (v : V) (m : Dict V) → str_beq k j ≡ false → lookup j (insert k v m) ≡ lookup j m
  lookup-insert_ne k j v m h = rw (lookup-insert, h)

-- What a lookup finds after entries are filtered.
abbrev pub kept_if {ℓ} : {V : Type ℓ} → (Str × V → Bool) → Str → Option V → Option V
kept_if p k none = none
kept_if p k (some v) = if p (k, v) then some v else none

module _ {ℓ} {V : Type ℓ} where
  has-filter :
      (p : Str × V → Bool) (k : Str) (m : Dict V) → has k m ≡ false → has k (filter p m) ≡ false
  unfolding has
  has-filter p k [] f = refl
  has-filter p k ((j, v) ∷ m) f = ground (arith, has-filter p k m)

  pub filter-NodupKeys : (p : Str × V → Bool) (m : Dict V) → NodupKeys m → NodupKeys (filter p m)
  filter-NodupKeys p [] n = tt
  filter-NodupKeys p ((j, v) ∷ m) (fresh, n) = elim (Bool-cases (p (j, v))) [
    | inl t ↦ rw t (has-filter p j m fresh, filter-NodupKeys p m n)
    | inr f ↦ rw f (filter-NodupKeys p m n)
  ]

  lookup-none : (k : Str) (m : Dict V) → has k m ≡ false → lookup k m ≡ none
  unfolding has lookup
  lookup-none k [] f = refl
  lookup-none k ((j, v) ∷ m) f = ground (arith, lookup-none k m)

  pub lookup-filter :
      (p : Str × V → Bool) (k : Str) (m : Dict V)
      → NodupKeys m
      → lookup k (filter p m) ≡ kept_if p k (lookup k m)
  unfolding lookup
  lookup-filter p k [] n = refl
  lookup-filter p k ((j, v) ∷ m) (fresh, n) = elim (Bool-cases (j == k)) [
    | inr f ↦ rw f (ground (arith, lookup-filter p k m n))
    | inl e ↦
        subst (λ i. lookup i (filter p ((j, v) ∷ m)) ≡ kept_if p i (lookup i ((j, v) ∷ m)))
          ((str_beq_iff j k).0 e) (first (lookup-filter p j m n))
  ]
    where
      first :
          lookup j (filter p m) ≡ kept_if p j (lookup j m)
          → lookup j (filter p ((j, v) ∷ m)) ≡ kept_if p j (lookup j ((j, v) ∷ m))
      first ih =
          let gone : lookup j m ≡ none = lookup-none j m fresh in
          let self : str_beq j j ≡ true = (str_beq_iff j j).1 refl in
          elim (Bool-cases (p (j, v))) [
            | inl t ↦ rw (t, self) (rw t refl)
            | inr f ↦ rw (f, ih, gone, self) (rw f refl)
          ]
