-- ===== src/Plugin/Rename/Moves.antt =====
-- What every planned folder move rests on.
use obsidian_syncserver.Prelude.{
  suc, true, false, ◌||◌, ◌≡◌, ◌≢◌, ◌⊎◌, inl, inr, ap, subst, subst⁻¹, none, some, List, [], ◌∷◌,
  Str, Dict, lookup, has, length, drop, any, any_none, Elem, contains, str_eq, str_beq_iff, truthy,
  keys, Option-cases, Bool-cases, arith, ◌==◌,
}
use obsidian_syncserver.Plugin.Rename.{
  TreeNode, FileMeta, Gone, Inside, FolderMove, MovePlan, join, within, leftover, blocked,
  parent_chain_exists, destination_of, children_of, settle_children, replaced_by, planned_move,
}
use obsidian_syncserver.Plugin.Rename.Chain.{IsFolderAt, parent_chain_exists-IsFolderAt}
use obsidian_syncserver.Plugin.Rename.Destination.{Arrived, destination_of_lem}

-- Nothing stands at `to` on the server, or an empty unshared folder that the move names.
abbrev pub HasRoom : Dict TreeNode → FolderMove → Type 0
HasRoom tree m =
    ((lookup m.to tree ≡ none) × (m.replaces ≡ none))
    ⊎ ((n : TreeNode) × (lookup m.to tree ≡ some n)
        × (m.replaces ≡ some (record { node_id = n.node_id; rev = n.rev }))
        × (n.is_file ≡ false)
        × (truthy n.share_id ≡ false)
        × ((p : Str) → Elem p (keys tree) → within m.to p ≡ false))

-- Where a file that vanished from under `m.from` has to be.
abbrev pub new_path : FolderMove → Gone → Str
new_path m g = join m.to (drop (suc (length m.from)) g.v.path)

pub record IsSound (gone : List Gone) (tree : Dict TreeNode) (here : List Str) (m : FolderMove)
    : Type 0 where
  pub source : TreeNode
  pub held : lookup m.from tree ≡ some source
  pub is_folder : source.is_file ≡ false
  pub same_id : m.node_id ≡ source.node_id
  pub same_rev : m.rev ≡ source.rev
  pub emptied : (p : Str) → Elem p here → within m.from p ≡ false
  pub apart : (m.to ≢ m.from) × (within m.from m.to ≡ false)
  pub chain : (d : Str) → d ≢ [] → within d m.to ≡ true → IsFolderAt tree d
  pub room : HasRoom tree m
  pub arrived :
      (g : Gone)
      → Elem g gone
      → within m.from g.v.path ≡ true
      → (contains (new_path m g) here ≡ true)
        × (has (new_path m g) tree ≡ false)
        × Elem (record { hash = g.hash; to = new_path m g }) m.children

module _ (gone : List Gone) (tree : Dict TreeNode) (meta : Dict FileMeta) (here : List Str) where
  -- The tests that a planned move has passed.
  pub record Passed (from : Str) (st : MovePlan) (m : FolderMove) : Type 0 where
    pub taken : m.from ≡ from
    pub source : TreeNode
    pub held : lookup m.from tree ≡ some source
    pub is_folder : source.is_file ≡ false
    pub emptied : any (within m.from) here ≡ false
    pub chosen : destination_of (children_of gone m.from) here tree meta ≡ some m.to
    pub apart : (m.to == m.from || within m.from m.to) ≡ false
    pub chain : parent_chain_exists m.to tree ≡ true
    pub unclaimed : contains m.to st.claimed ≡ false
    pub uncarried :
        any (λ (e : FolderMove). m.from == e.from || within e.from m.from) st.plan ≡ false
    pub free : blocked m.to tree ≡ false
    pub built : m ≡ record {
      from = m.from;
      to = m.to;
      node_id = source.node_id;
      rev = source.rev;
      children = settle_children m.to (children_of gone m.from);
      replaces = replaced_by (lookup m.to tree);
    }

  pub planned_move-Passed :
      (from : Str) (st : MovePlan) (m : FolderMove)
      → planned_move gone tree meta here from st ≡ some m
      → Passed from st m
  unfolding planned_move
  planned_move-Passed from st m h = elim (Option-cases (lookup from tree)) [
    | inl e ↦ absurd (ground arith)
    | inr (source, e) ↦
        elim (Option-cases (destination_of (children_of gone from) here tree meta)) [
          | inl d ↦ absurd (ground arith)
          | inr (to, d) ↦ record {
            source = source;
            taken = ground arith;
            held = ground arith;
            is_folder = ground arith;
            emptied = ground arith;
            chosen = ground arith;
            apart = ground arith;
            chain = ground arith;
            unclaimed = ground arith;
            uncarried = ground arith;
            free = ground arith;
            built = ground arith;
          }
        ]
  ]

Elem-children_of :
    (gone : List Gone) (from : Str) (g : Gone)
    → Elem g gone
    → within from g.v.path ≡ true
    → Elem
        (record { hash = g.hash; rel = drop (suc (length from)) g.v.path })
        (children_of gone from)
unfolding children_of
Elem-children_of [] from g i w = absurd i
Elem-children_of (x ∷ gone) from g (inl e) w =
    let w' : within from x.v.path ≡ true = subst (λ (y : Gone). within from y.v.path ≡ true) e w in
    rw (w', children_of)
      (inl (ap (λ (y : Gone). record { hash = y.hash; rel = drop (suc (length from)) y.v.path }) e))
Elem-children_of (x ∷ gone) from g (inr i) w = elim (Bool-cases (within from x.v.path)) [
  | inl t ↦ rw (t, children_of) (inr (Elem-children_of gone from g i w))
  | inr f ↦ rw (f, children_of) (Elem-children_of gone from g i w)
]

Elem-settle_children :
    (to : Str) (c : Inside) (cs : List Inside)
    → Elem c cs
    → Elem (record { hash = c.hash; to = join to c.rel }) (settle_children to cs)
Elem-settle_children to c [] i = absurd i
Elem-settle_children to c (x ∷ cs) (inl e) =
    inl (ap (λ (y : Inside). record { hash = y.hash; to = join to y.rel }) e)
Elem-settle_children to c (x ∷ cs) (inr i) = inr (Elem-settle_children to c cs i)

module _ (tree : Dict TreeNode) (meta : Dict FileMeta) (here : List Str) where
  destination_of-Arrived :
      (children : List Inside) (to : Str)
      → destination_of children here tree meta ≡ some to
      → Arrived children to here tree
  destination_of-Arrived [] to h = unfold destination_of in cc
  destination_of-Arrived (first ∷ more) to h = (destination_of_lem first more here tree meta to h).0

  blocked-room :
      (to : Str)
      → blocked to tree ≡ false
      → (lookup to tree ≡ none)
        ⊎ ((n : TreeNode) × (lookup to tree ≡ some n) × (leftover to n tree ≡ true))
  blocked-room to h = elim (Option-cases (lookup to tree)) [
    | inl e ↦ inl e
    | inr (n, e) ↦ inr (n, e, ground arith)
  ]

module _ (gone : List Gone) (tree : Dict TreeNode) (meta : Dict FileMeta) (here : List Str) where
  Passed-room :
      {from : Str} {st : MovePlan} {m : FolderMove}
      → Passed gone tree meta here from st m
      → HasRoom tree m
  unfolding leftover
  Passed-room {m} p = elim (blocked-room tree meta here m.to p.free) [
    | inl e ↦ inl (e, ground (arith, p.built))
    | inr (n, e, l) ↦ inr (
      n,
      e,
      ground (arith, p.built),
      ground arith,
      ground arith,
      λ q i. any_none (within m.to) (keys tree) q (ground arith) i,
    )
  ]

  pub Passed-IsSound :
      lookup [] tree ≡ none
      → {from : Str} {st : MovePlan} {m : FolderMove} → Passed gone tree meta here from st m
      → IsSound gone tree here m
  Passed-IsSound rootless {from} {st} {m} p = record {
    source = p.source;
    held = p.held;
    is_folder = p.is_folder;
    same_id = ground (arith, p.built);
    same_rev = ground (arith, p.built);
    emptied = λ q i. any_none (within m.from) here q p.emptied i;
    apart = ground (arith, p.apart, str_beq_iff m.to m.from);
    chain = λ d. parent_chain_exists-IsFolderAt tree rootless m.to d p.chain;
    room = Passed-room p;
    arrived = λ g i w.
        let child = Elem-children_of gone m.from g i w in
        let (at, free) =
          destination_of-Arrived tree meta here (children_of gone m.from) m.to p.chosen _ child in
        (
          at,
          free,
          subst⁻¹
              (λ (k : FolderMove). Elem (record { hash = g.hash; to = new_path m g }) k.children)
              p.built (Elem-settle_children m.to _ (children_of gone m.from) child),
        );
  }
