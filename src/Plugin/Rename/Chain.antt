-- ===== src/Plugin/Rename/Chain.antt =====
-- What the walk over the parts of a path establishes about every folder above it.
use mathlib.Core.List.{append-nil, append_assoc}
use mathlib.Core.Path.{ap₂}
use obsidian_syncserver.Prelude.{
  ℕ, true, false, ◌≡◌, ◌≢◌, ◌⊎◌, inl, inr, refl, sym, ap, ◌∙◌, subst, none, some, List, [], ◌∷◌,
  ◌++◌, Str, Dict, lookup, starts_with, split, cons_head, str_eq, str_beq, nat_beq, nat_beq_iff,
  Option-cases, Bool-cases, str_beq-cases, arith,
}
use obsidian_syncserver.Plugin.Rename.{
  TreeNode, slash, join, within, parent_path, chain_exists, parent_chain_exists,
}
use obsidian_syncserver.Plugin.Rename.Paths.{within-parent_path}

abbrev pub IsFolderAt : Dict TreeNode → Str → Type 0
IsFolderAt tree d = (n : TreeNode) × (lookup d tree ≡ some n) × (n.is_file ≡ false)

abbrev prepend : Str → List Str → List Str
prepend w [] = w ∷ []
prepend w (x ∷ xs) = (w ++ x) ∷ xs

-- `sofar ? `${sofar}/${part}` : part`
abbrev full : Str → Str → Str
full [] w = w
full (c ∷ s) w = join (c ∷ s) w

prepend-cons_head :
    (w : Str) (x : ℕ) (ws : List Str) → prepend w (cons_head x ws) ≡ prepend (w ++ (x ∷ [])) ws
prepend-cons_head w x [] = refl
prepend-cons_head w x (v ∷ ws) = ap (λ (u : Str). u ∷ ws) (sym (append_assoc w (x ∷ []) v))

prepend_nil-cons_head : (x : ℕ) (ws : List Str) → prepend [] (cons_head x ws) ≡ cons_head x ws
prepend_nil-cons_head x [] = refl
prepend_nil-cons_head x (w ∷ ws) = refl

prepend_nil-split : (p : Str) → prepend [] (split slash p) ≡ split slash p
unfolding split
prepend_nil-split [] = refl
prepend_nil-split (x ∷ p) = elim (Bool-cases (nat_beq x slash)) [
  | inl t ↦ rw (t, split)
  | inr f ↦ rw (f, split) (prepend_nil-cons_head x (split slash p))
]

full-append : (sofar w q : Str) → full sofar w ++ q ≡ full sofar (w ++ q)
full-append [] w q = refl
full-append (c ∷ s) w q = append_assoc (c ∷ s) (slash ∷ w) q

module _ (tree : Dict TreeNode) where
  chain_exists-cons :
      (sofar part : Str) (parts : List Str)
      → chain_exists sofar (part ∷ parts) tree ≡ true
      → IsFolderAt tree (full sofar part) × (chain_exists (full sofar part) parts tree ≡ true)
  unfolding chain_exists str_beq
  chain_exists-cons [] part parts h = elim (Option-cases (lookup part tree)) [
    | inl e ↦ absurd (ground arith)
    | inr (n, e) ↦ ((n, e, ground arith), ground arith)
  ]
  chain_exists-cons (c ∷ s) part parts h = elim (Option-cases (lookup (join (c ∷ s) part) tree)) [
    | inl e ↦ absurd (ground arith)
    | inr (n, e) ↦ ((n, e, ground arith), ground arith)
  ]

-- The parts of a text that begins with a separator, and of one that does not.
split-slash :
    (x : ℕ) (p w : Str)
    → nat_beq x slash ≡ true
    → prepend w (split slash (x ∷ p)) ≡ (w ++ []) ∷ split slash p
unfolding split
split-slash x p w t = rw (t, split)

split-char :
    (x : ℕ) (p w : Str)
    → nat_beq x slash ≡ false
    → prepend w (split slash (x ∷ p)) ≡ prepend (w ++ (x ∷ [])) (split slash p)
unfolding split
split-char x p w f = rw (f, split) (prepend-cons_head w x (split slash p))

full_nil : (n q : Str) → n ≢ [] → full n [] ++ q ≡ n ++ (slash ∷ q)
full_nil [] q h = absurd (h refl)
full_nil (c ∷ n) q h = append_assoc (c ∷ n) (slash ∷ []) q

past_slash :
    (sofar w q : Str) (x y : ℕ)
    → nat_beq x slash ≡ true
    → x ≡ y
    → full sofar (w ++ []) ≢ []
    → full (full sofar (w ++ [])) [] ++ q ≡ full sofar w ++ (y ∷ q)
past_slash sofar w q x y t e h =
    full_nil (full sofar (w ++ [])) q h
    ∙ ap₂ (λ (n : Str) (c : ℕ). n ++ (c ∷ q)) (ap (full sofar) (append-nil w))
        (sym ((nat_beq_iff x slash).0 t) ∙ e)

past_char :
    (sofar w q : Str) (x y : ℕ) → x ≡ y → full sofar (w ++ (x ∷ [])) ++ q ≡ full sofar w ++ (y ∷ q)
past_char sofar w q x y e =
    full-append sofar (w ++ (x ∷ [])) q
    ∙ ap (full sofar) (append_assoc w (x ∷ []) q)
    ∙ sym (full-append sofar w (x ∷ q))
    ∙ ap (λ (c : ℕ). full sofar w ++ (c ∷ q)) e

not_above_root : {x : ℕ} {d : Str} → ([] ≡ x ∷ d) ⊎ (within (x ∷ d) [] ≡ true) → ⊥
unfolding starts_with
not_above_root (inl e) = cc
not_above_root (inr h) = cc

above :
    (x : ℕ) (d path : Str)
    → within (x ∷ d) path ≡ true
    → (parent_path path ≡ x ∷ d) ⊎ (within (x ∷ d) (parent_path path) ≡ true)
above x d path w = elim (str_beq-cases (x ∷ d) (parent_path path)) [
  | inl (t, e) ↦ inl (sym e)
  | inr (f, e) ↦ inr (ground (arith, within-parent_path x d path))
]

rest_at :
    (x y : ℕ) (p q : Str)
    → (x ∷ p ≡ y ∷ q) ⊎ (within (y ∷ q) (x ∷ p) ≡ true)
    → (p ≡ q) ⊎ (within q p ≡ true)
unfolding starts_with
rest_at x y p q (inl e) = inl (cc)
rest_at x y p q (inr h) = inr (ground arith)

head_at : (x y : ℕ) (p q : Str) → (x ∷ p ≡ y ∷ q) ⊎ (within (y ∷ q) (x ∷ p) ≡ true) → x ≡ y
unfolding starts_with
head_at x y p q (inl e) = cc
head_at x y p q (inr h) = ground arith

module _ (tree : Dict TreeNode) (rootless : lookup [] tree ≡ none) where
  not-root : (n : Str) → IsFolderAt tree n → n ≢ []
  not-root n (m, e, _) h = cc (subst (λ d. lookup d tree ≡ some m) h e)

  -- `q` is all of `p`, or ends where a part of `p` does.
  chain_sound :
      (p w sofar q : Str)
      → chain_exists sofar (prepend w (split slash p)) tree ≡ true
      → (p ≡ q) ⊎ (within q p ≡ true)
      → IsFolderAt tree (full sofar w ++ q)
  chain_sound [] w sofar [] h at =
      rw (full-append sofar w []) (chain_exists-cons tree sofar (w ++ []) [] (unfold split in h)).0
  chain_sound [] w sofar (y ∷ q) h at =
      absurd (unfold starts_with in elim at [ inl e ↦ cc | inr e ↦ cc ])
  chain_sound (x ∷ p) w sofar [] h at = elim (Bool-cases (nat_beq x slash)) [
    | inr f ↦ absurd (unfold starts_with in elim at [ inl e ↦ cc | inr e ↦ ground arith ])
    | inl t ↦
        rw (full-append sofar w [])
          (chain_exists-cons tree sofar (w ++ []) (split slash p) (rw (split-slash x p w t) at h)).0
  ]
  chain_sound (x ∷ p) w sofar (y ∷ q) h at = elim (Bool-cases (nat_beq x slash)) [
    | inl t ↦
        let (folder, rest) =
          chain_exists-cons tree sofar (w ++ []) (split slash p) (rw (split-slash x p w t) at h) in
        let below =
          chain_sound p [] (full sofar (w ++ [])) q (rw (prepend_nil-split p) rest)
            (rest_at x y p q at) in
        subst (IsFolderAt tree)
          (past_slash sofar w q x y t (head_at x y p q at) (not-root (full sofar (w ++ [])) folder))
          below
    | inr f ↦
        let below =
          chain_sound p (w ++ (x ∷ [])) sofar q (rw (split-char x p w f) at h)
            (rest_at x y p q at) in
        subst (IsFolderAt tree) (past_char sofar w q x y (head_at x y p q at)) below
  ]

  -- A path that has its parent chain has a folder of the server at every folder above it, whatever
  -- the depth. The walked tree has no entry for the vault root itself.
  pub parent_chain_exists-IsFolderAt :
      (path d : Str)
      → parent_chain_exists path tree ≡ true
      → d ≢ []
      → within d path ≡ true
      → IsFolderAt tree d
  unfolding parent_chain_exists
  parent_chain_exists-IsFolderAt path [] h ne w = absurd (ne refl)
  parent_chain_exists-IsFolderAt path (x ∷ d) h ne w = elim (str_beq-cases (parent_path path) []) [
    | inl (t, e) ↦
        absurd (
          not_above_root
            (subst (λ q. (q ≡ x ∷ d) ⊎ (within (x ∷ d) q ≡ true)) e (above x d path w)))
    | inr (f, e) ↦
        chain_sound (parent_path path) [] [] (x ∷ d)
          (rw (prepend_nil-split (parent_path path)) (ground arith)) (above x d path w)
  ]
