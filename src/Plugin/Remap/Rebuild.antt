-- ===== src/Plugin/Remap/Rebuild.antt =====
-- A map rebuilt entry by entry, under new keys.
use mathlib.Core.Path.{ap₂}
use mathlib.Core.List.{append-nil, append_assoc}
use obsidian_syncserver.Prelude.{
  true, false, ◌≡◌, refl, ap, ◌∙◌, subst, inl, inr, some, [], ◌∷◌, ◌++◌, Str, Dict, lookup, insert,
  has, NodupKeys, str_beq, str_beq-cases, str_beq_iff, Bool-cases, arith, str_eq, sym, subst⁻¹,
  has-eq-lookup,
}

some_inj : {V : Type 0} {v w : V} → some v ≡ some w → v ≡ w
some_inj e = cc

has_of_lookup : {V : Type 0} (k : Str) (v : V) (m : Dict V) → lookup k m ≡ some v → has k m ≡ true
has_of_lookup k v m h = has-eq-lookup k m ∙ rw h

module _ {V : Type 0} (key : Str → Str) (value : Str → V → V) where
  unfoldable pub rebuild_onto : Dict V → Dict V → Dict V
  rebuild_onto next [] = next
  rebuild_onto next ((k, v) ∷ m) = rebuild_onto (insert (key k) (value k v) next) m

  unfoldable pub rebuild : Dict V → Dict V
  unfolding rebuild_onto
  rebuild m = rebuild_onto [] m

  -- The entries in place.
  unfoldable pub renamed : Dict V → Dict V
  renamed [] = []
  renamed ((k, v) ∷ m) = (key k, value k v) ∷ renamed m

  pub has-renamed : (k : Str) (m : Dict V) → has k m ≡ true → has (key k) (renamed m) ≡ true
  unfolding has renamed
  has-renamed k [] h = h
  has-renamed k ((j, v) ∷ m) h = elim (str_beq-cases j k) [
    | inl (t, e) ↦ rw ((str_beq_iff (key j) (key k)).1 (ap key e)) refl
    | inr (f, e) ↦ ground (arith, has-renamed k m)
  ]

  pub lookup-renamed :
      (k : Str) (v : V) (m : Dict V)
      → NodupKeys (renamed m)
      → lookup k m ≡ some v
      → lookup (key k) (renamed m) ≡ some (value k v)
  unfolding lookup renamed
  lookup-renamed k v [] n h = cc
  lookup-renamed k v ((j, w) ∷ m) (fresh, n) h = elim (str_beq-cases j k) [
    | inl (t, e) ↦
        rw ((str_beq_iff (key j) (key k)).1 (ap key e))
          (ap₂ (λ (i : Str) (x : V). some (value i x)) e (some_inj (rw t at h)))
    | inr (f, e) ↦ elim (Bool-cases (str_beq (key j) (key k))) [
      | inl t ↦ absurd (clash t (has-renamed k m (has_of_lookup k v m (rw f at h))))
      | inr g ↦ rw g (lookup-renamed k v m n (rw f at h))
    ]
  ]
    where
      clash : str_beq (key j) (key k) ≡ true → has (key k) (renamed m) ≡ true → ⊥
      clash t g = cc (fresh, ap (λ i. has i (renamed m)) ((str_beq_iff (key j) (key k)).0 t), g)

module _ {V : Type 0} where
  insert-fresh :
      (k : Str) (v : V) (m : Dict V) → has k m ≡ false → insert k v m ≡ m ++ ((k, v) ∷ [])
  unfolding insert has
  insert-fresh k v [] h = refl
  insert-fresh k v ((j, w) ∷ m) h = ground (arith, insert-fresh k v m)

  has-middle : (k : Str) (v : V) (a b : Dict V) → NodupKeys (a ++ ((k, v) ∷ b)) → has k a ≡ false
  unfolding has
  has-middle k v [] b n = refl
  has-middle k v ((j, w) ∷ a) b (fresh, n) = elim (str_beq-cases j k) [
    | inl (t, e) ↦
        absurd (cc (fresh, subst (λ i. has i (a ++ ((k, v) ∷ b)) ≡ true) (sym e) (has_there a)))
    | inr (f, e) ↦ rw f (has-middle k v a b n)
  ]
    where
      has_there : (c : Dict V) → has k (c ++ ((k, v) ∷ b)) ≡ true
      has_there [] = rw ((str_beq_iff k k).1 refl)
      has_there ((i, x) ∷ c) = ground (arith, has_there c)

module _ {V : Type 0} (key : Str → Str) (value : Str → V → V) where
  rebuild_onto-renamed :
      (next m : Dict V)
      → NodupKeys (next ++ renamed key value m)
      → rebuild_onto key value next m ≡ next ++ renamed key value m
  unfolding rebuild_onto renamed
  rebuild_onto-renamed next [] n = sym (append-nil next)
  rebuild_onto-renamed next ((k, v) ∷ m) n =
      let rest = renamed key value m in
      let one : Dict V = (key k, value k v) ∷ [] in
      rw (insert-fresh (key k) (value k v) next (has-middle (key k) (value k v) next rest n)) (
        rebuild_onto-renamed (next ++ one) m (subst⁻¹ NodupKeys (append_assoc next one rest) n)
        ∙ append_assoc next one rest)

  -- Where the new keys are distinct, nothing is overwritten.
  pub rebuild-renamed :
      (m : Dict V) → NodupKeys (renamed key value m) → rebuild key value m ≡ renamed key value m
  unfolding rebuild
  rebuild-renamed m n = rebuild_onto-renamed [] m n

  has_of_renamed :
      (k : Str) (m : Dict V)
      → has k (renamed key value m) ≡ true
      → (j : Str) × (has j m ≡ true) × (key j ≡ k)
  unfolding renamed has
  has_of_renamed k [] h = absurd (cc)
  has_of_renamed k ((j, v) ∷ m) h = elim (str_beq-cases (key j) k) [
    | inl (t, e) ↦ (j, rw ((str_beq_iff j j).1 refl), e)
    | inr (f, e) ↦ let (i, g, p) = has_of_renamed k m (rw f at h) in (i, ground arith, p)
  ]

  -- Distinct keys stay distinct where the new key decides the old one.
  pub renamed-NodupKeys :
      (m : Dict V)
      → ((j k : Str) → has j m ≡ true → has k m ≡ true → key j ≡ key k → j ≡ k)
      → NodupKeys m
      → NodupKeys (renamed key value m)
  unfolding renamed has
  renamed-NodupKeys [] inj n = tt
  renamed-NodupKeys ((k, v) ∷ m) inj (fresh, n) = (
    elim (Bool-cases (has (key k) (renamed key value m))) [
      | inr f ↦ f
      | inl t ↦
          let (j, g, e) = has_of_renamed (key k) m t in
          let same : j ≡ k = inj j k (ground arith) (rw ((str_beq_iff k k).1 refl)) e in
          absurd (cc (fresh, subst (λ i. has i m ≡ true) same g))
    ],
    renamed-NodupKeys m (λ i j hi hj e. inj i j (ground arith) (ground arith) e) n,
  )
