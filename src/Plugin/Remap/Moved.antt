-- ===== src/Plugin/Remap/Moved.antt =====
-- The rewrite loses nothing, and undoes itself.
use obsidian_syncserver.Plugin.Rename.{slash}
use mathlib.Core.Path.{ap₂}
use obsidian_syncserver.Prelude.{
  true, false, append_assoc, Bool-cases, ◌≡◌, ◌≢◌, ◌⊎◌, refl, ap, ◌∙◌, sym, subst, subst⁻¹, inl,
  inr, some, [], ◌∷◌, ◌++◌, Str, Dict, lookup, has, NodupKeys, length, drop, str_beq, str_beq-cases,
  str_beq_iff, str_eq, starts_with, starts_with_iff, starts_with_append, drop-append, arith, ℕ,
  length-append, All, keys,
}
use obsidian_syncserver.Plugin.Wire.{ServerNode, KnownNode}
use obsidian_syncserver.Plugin.Remap.{
  prefix_of, moved_path, tree_path, tree_node, remap_tree, state_path, remap_state,
}
use obsidian_syncserver.Plugin.Remap.Rebuild.{
  renamed, rebuild-renamed, renamed-NodupKeys, lookup-renamed,
}

-- What a moved path comes from.
inside-from :
    (from path : Str)
    → starts_with path (prefix_of from) ≡ true
    → path ≡ prefix_of from ++ drop (length (prefix_of from)) path
inside-from from path h = (starts_with_iff path (prefix_of from)).0 h

-- A path below the folder, or one that does not stand where the folder goes.
abbrev pub InOrOut : Str → Str → Str → Type 0
InOrOut from to path =
    (starts_with path (prefix_of from) ≡ true)
    ⊎ ((starts_with path (prefix_of from) ≡ false) × (starts_with path (prefix_of to) ≡ false))

-- Moving there and back is to stay.
state_path-back :
    (from to path : Str)
    → InOrOut from to path
    → state_path to from (state_path from to path) ≡ path
state_path-back from to path (inl h) =
    let rest = drop (length (prefix_of from)) path in
    rw (h, starts_with_append (prefix_of to) rest, drop-append (prefix_of to) rest)
      (sym (inside-from from path h))
state_path-back from to path (inr (f, g)) = rw (f, g)

state_path-inj :
    (from to i j : Str)
    → InOrOut from to i
    → InOrOut from to j
    → state_path from to i ≡ state_path from to j
    → i ≡ j
state_path-inj from to i j hi hj e =
    sym (state_path-back from to i hi) ∙ ap (state_path to from) e ∙ state_path-back from to j hj

-- Nothing this device remembers stands where the folder goes, unless it goes with it.
abbrev pub IsClear : Str → Str → Dict KnownNode → Type 0
IsClear from to nodes = All (InOrOut from to) (keys nodes)

-- What holds of all keys holds of each.
All_has :
    {V : Type 0} (P : Str → Type 0) (k : Str) (m : Dict V) → All P (keys m) → has k m ≡ true → P k
unfolding has
All_has P k [] a h = absurd (cc)
All_has P k ((j, v) ∷ m) (p, a) h = elim (str_beq-cases j k) [
  | inl (t, e) ↦ subst P e p
  | inr (f, e) ↦ All_has P k m a (rw f at h)
]

renamed-back :
    (from to : Str) (nodes : Dict KnownNode)
    → IsClear from to nodes
    → renamed
        (state_path to from)
        (λ path known. known)
        (renamed (state_path from to) (λ path known. known) nodes)
      ≡ nodes
unfolding renamed has
renamed-back from to [] c = refl
renamed-back from to ((path, known) ∷ nodes) (c, cs) =
    ap₂ (λ (p : Str) (l : Dict KnownNode). (p, known) ∷ l) (state_path-back from to path c)
      (renamed-back from to nodes cs)

-- Where nothing remembered stands at the destination, moving a folder and moving it back leaves
-- what this device remembers exactly as it was.
pub remap_state-back :
    (from to : Str) (nodes : Dict KnownNode)
    → NodupKeys nodes
    → IsClear from to nodes
    → remap_state (remap_state nodes from to) to from ≡ nodes
unfolding remap_state
remap_state-back from to nodes n c =
    let there =
      renamed-NodupKeys (state_path from to) (λ path known. known) nodes
        (λ i j hi hj.
          state_path-inj from to i j (All_has (InOrOut from to) i nodes c hi)
            (All_has (InOrOut from to) j nodes c hj))
        n in
    let back = renamed-back from to nodes c in
    rw (rebuild-renamed (state_path from to) (λ path known. known) nodes there) (
      rebuild-renamed (state_path to from) (λ path known. known) _ (subst⁻¹ NodupKeys back n)
      ∙ back)

-- The path is the folder, or below it, or neither at nor below its destination.
pub data TreeClear (from to path : Str) : Type 0 where
  folder : path ≡ from → TreeClear from to path
  below : path ≢ from → starts_with path (prefix_of from) ≡ true → TreeClear from to path
  outside :
      path ≢ from
      → starts_with path (prefix_of from) ≡ false
      → path ≢ to
      → starts_with path (prefix_of to) ≡ false
      → TreeClear from to path

ne_beq : (a b : Str) → a ≢ b → str_beq a b ≡ false
ne_beq a b h = ground (arith, str_beq_iff a b)

module _ (from to path : Str) where
  goes_folder : path ≡ from → tree_path from to path ≡ to
  goes_folder e = rw ((str_beq_iff path from).1 e)

  goes_below :
      path ≢ from
      → starts_with path (prefix_of from) ≡ true
      → tree_path from to path ≡ moved_path from to path
  goes_below n h = rw (ne_beq path from n, h)

  goes_outside :
      path ≢ from → starts_with path (prefix_of from) ≡ false → tree_path from to path ≡ path
  goes_outside n h = rw (ne_beq path from n, h)

  moved-inside : starts_with (moved_path from to path) (prefix_of to) ≡ true
  moved-inside = starts_with_append (prefix_of to) (drop (length (prefix_of from)) path)

not-below_itself : (to r : Str) → to ≢ [] → to ≢ prefix_of to ++ r
not-below_itself [] r h e = h refl
not-below_itself (c ∷ t) r h e = absurd (
    omega (
      arith,
      ap length e,
      length-append ((c ∷ t) ++ (slash ∷ [])) r,
      length-append (c ∷ t) (slash ∷ []),
    ))

apart :
    (to i j : Str)
    → starts_with i (prefix_of to) ≡ true
    → starts_with j (prefix_of to) ≡ false
    → i ≢ j
apart to i j t f e = cc (t, f, ap (λ q. starts_with q (prefix_of to)) e)

moved_path-inj :
    (from to i j : Str)
    → starts_with i (prefix_of from) ≡ true
    → starts_with j (prefix_of from) ≡ true
    → moved_path from to i ≡ moved_path from to j
    → i ≡ j
moved_path-inj from to i j hi hj p =
    let base = prefix_of from in
    let rest : drop (length base) i ≡ drop (length base) j =
      sym (drop-append (prefix_of to) (drop (length base) i))
      ∙ ap (drop (length (prefix_of to))) p
      ∙ drop-append (prefix_of to) (drop (length base) j) in
    inside-from from i hi ∙ ap (λ r. base ++ r) rest ∙ sym (inside-from from j hj)

tree_path-inj :
    (from to i j : Str)
    → to ≢ []
    → TreeClear from to i
    → TreeClear from to j
    → tree_path from to i ≡ tree_path from to j
    → i ≡ j
tree_path-inj from to i j ne (folder e) (folder e') p = e ∙ sym e'
tree_path-inj from to i j ne (folder e) (below n h) p = absurd (
    not-below_itself to (drop (length (prefix_of from)) j) ne
      (sym (goes_folder from to i e) ∙ p ∙ goes_below from to j n h))
tree_path-inj from to i j ne (folder e) (outside n h d k) p =
    absurd (d (sym (goes_outside from to j n h) ∙ sym p ∙ goes_folder from to i e))
tree_path-inj from to i j ne (below n h) (folder e) p = absurd (
    not-below_itself to (drop (length (prefix_of from)) i) ne
      (sym (goes_folder from to j e) ∙ sym p ∙ goes_below from to i n h))
tree_path-inj from to i j ne (below n h) (below n' h') p =
    moved_path-inj from to i j h h'
      (sym (goes_below from to i n h) ∙ p ∙ goes_below from to j n' h')
tree_path-inj from to i j ne (below n h) (outside n' h' d k) p = absurd (
    apart to _ j (moved-inside from to i) k
      (sym (goes_below from to i n h) ∙ p ∙ goes_outside from to j n' h'))
tree_path-inj from to i j ne (outside n h d k) (folder e) p =
    absurd (d (sym (goes_outside from to i n h) ∙ p ∙ goes_folder from to j e))
tree_path-inj from to i j ne (outside n h d k) (below n' h') p = absurd (
    apart to _ i (moved-inside from to j) k
      (sym (goes_below from to j n' h') ∙ sym p ∙ goes_outside from to i n h))
tree_path-inj from to i j ne (outside n h d k) (outside n' h' d' k') p =
    sym (goes_outside from to i n h) ∙ p ∙ goes_outside from to j n' h'

-- The entry is found at the place that the loop gives it.
lookup-place :
    (from to : Str) (rev : ℕ) (tree : Dict ServerNode) (path : Str) (node : ServerNode)
    → to ≢ []
    → NodupKeys tree
    → All (TreeClear from to) (keys tree)
    → lookup path tree ≡ some node
    → lookup (tree_path from to path) (remap_tree tree from to rev)
      ≡ some (tree_node from to rev path node)
unfolding remap_tree
lookup-place from to rev tree path node ne n c h =
    let there =
      renamed-NodupKeys (tree_path from to) (tree_node from to rev) tree
        (λ i j hi hj.
          tree_path-inj from to i j ne (All_has (TreeClear from to) i tree c hi)
            (All_has (TreeClear from to) j tree c hj))
        n in
    rw (rebuild-renamed (tree_path from to) (tree_node from to rev) tree there)
      (lookup-renamed (tree_path from to) (tree_node from to rev) path node tree there h)

prefix-join : (dir rest : Str) → dir ≢ [] → prefix_of dir ++ rest ≡ dir ++ (slash ∷ rest)
prefix-join [] rest ne = absurd (ne refl)
prefix-join (c ∷ dir) rest ne = append_assoc (c ∷ dir) (slash ∷ []) rest

not-inside :
    (from path : Str)
    → from ≢ []
    → starts_with path (prefix_of from) ≡ false
    → (rest : Str) → path ≢ from ++ (slash ∷ rest)
not-inside from path ne f rest e = ground (
  arith,
  f,
  starts_with_append (prefix_of from) rest,
  ap (λ p. starts_with p (prefix_of from)) (e ∙ sym (prefix-join from rest ne)),
)

-- Where neither the folder nor its destination is the vault's root, the paths of the tree are distinct
-- and nothing else stands at the destination, no entry of the tree is lost or overwritten by the move.
-- The folder's own entry is found at the destination, with its new path and its new revision; one
-- below the folder is found at the same relative path below the destination, with that path; any other
-- is found where it was. Nothing else of an entry has changed.
pub lookup-remap_tree :
    (from to : Str) (rev : ℕ) (tree : Dict ServerNode) (path : Str) (node : ServerNode)
    → from ≢ []
    → to ≢ []
    → NodupKeys tree
    → All (TreeClear from to) (keys tree)
    → lookup path tree ≡ some node
    → ((path ≡ from)
        × (lookup to (remap_tree tree from to rev)
            ≡ some (record node { node = record (node.node) { rev = rev }; path = to })))
      ⊎ ((rest : Str) × (path ≡ from ++ (slash ∷ rest))
          × (lookup (to ++ (slash ∷ rest)) (remap_tree tree from to rev)
              ≡ some (record node { path = to ++ (slash ∷ rest) })))
      ⊎ ((path ≢ from)
          × ((rest : Str) → path ≢ from ++ (slash ∷ rest))
          × (lookup path (remap_tree tree from to rev) ≡ some node))
lookup-remap_tree from to rev tree path node nf nt n c h =
    let found = lookup-place from to rev tree path node nt n c h in
    elim (str_beq-cases path from) [
      | inl (t, e) ↦ inl (e, rw t at found)
      | inr (f, e) ↦ elim (Bool-cases (starts_with path (prefix_of from))) [
        | inl s ↦
            let rest = drop (length (prefix_of from)) path in
            let there : moved_path from to path ≡ to ++ (slash ∷ rest) = prefix-join to rest nt in
            inr (
              inl (
                rest,
                inside-from from path s ∙ prefix-join from rest nf,
                subst
                    (λ p. lookup p (remap_tree tree from to rev) ≡ some (record node { path = p }))
                    there (rw (f, s) at found),
              ))
        | inr g ↦ inr (inr (e, not-inside from path nf g, rw (f, g) at found))
      ]
    ]
