-- ===== src/Plugin/Tree/Walked.antt =====
-- The walk of plugin/src/engine/tree.ts loses no node of the server.
use obsidian_syncserver.Prelude.{
  ◌≡◌, refl, sym, subst, ◌∙◌, Bool, true, not, ◌&&◌, ◌||◌, Option, none, some, List, [], ◌∷◌, Str,
  ◌==◌, any, has, has-insert, contains, contains-add_to_set, truthy, str_eq, str_beq_iff, option_eq,
  arith, Bool-cases, inl, inr,
}
use obsidian_syncserver.Plugin.Tree.{
  Change, Walk, parent_in, parent_path_of, orphan, skip, told, unread, path_in, placed, key_of,
  named, placed_as, opened_with, below, walk_node, walk_nodes, tree_from,
}

-- Where the walk put a node: at a path, or among the skipped, or among the cut off.
abbrev pub accounted : Str → Walk → Bool
accounted id w = has id w.path_of || contains id w.skipped || contains id w.cut

abbrev pub Holds : (Walk → Type 0) → Option Walk → Type 0
Holds P none = Unit
Holds P (some w) = P w

accounted-orphan :
    (n : Change) (w : Walk) (id : Str)
    → accounted id (orphan n w) ≡ (accounted id w || n.node_id == id)
accounted-orphan n w id = ground (arith, contains-add_to_set id n.node_id w.cut)

accounted-skip :
    (n : Change) (w : Walk) (id : Str)
    → accounted id (skip n w) ≡ (accounted id w || n.node_id == id)
accounted-skip n w id = ground (arith, contains-add_to_set id n.node_id w.skipped)

accounted-unread :
    (n : Change) (parent : Str) (w : Walk) (id : Str)
    → accounted id (unread n parent w) ≡ (accounted id w || n.node_id == id)
accounted-unread n parent w id =
    elim (Bool-cases (truthy (some parent) && not (told n.name_key_id w.unreadable))) [
      | inl t ↦ rw t (accounted-skip n w id)
      | inr f ↦ rw f (accounted-skip n w id)
    ]

accounted-placed :
    (n : Change) (path : Str) (w : Walk) (id : Str)
    → accounted id (placed n path w) ≡ (accounted id w || n.node_id == id)
accounted-placed n path w id = ground (arith, has-insert n.node_id id path w.path_of)

module _ {Key : Type 0} (vault_key : Key) (key_if_openable : Option Str → Option Key)
    (decrypt_name : Key → Str → Option Str) where
  abbrev pub Adds : Change → Walk → Str → Option Walk → Type 0
  Adds n w id = Holds (λ s. accounted id s ≡ (accounted id w || n.node_id == id))

  below-Adds :
      (n : Change) (w : Walk) (id : Str) (parent : Option Str)
      → Adds n w id (below vault_key key_if_openable decrypt_name n w parent)
  below-Adds n w id none = accounted-orphan n w id
  below-Adds n w id (some parent) = opened (key_of vault_key key_if_openable decrypt_name n)
    where
      named_as :
          (name : Option Str)
          → Adds n w id (placed_as vault_key key_if_openable decrypt_name n parent w name)
      named_as none = tt
      named_as (some name) = accounted-placed n (path_in parent name) w id

      opened :
          (key : Option Key)
          → Adds n w id (opened_with vault_key key_if_openable decrypt_name n parent w key)
      opened none = accounted-unread n parent w id
      opened (some key) =
          named_as (named vault_key key_if_openable decrypt_name n.name_enc key n.node_id)

  pub walk_node-Adds :
      (root : Str) (n : Change) (w : Walk) (id : Str)
      → accounted root w ≡ true
      → Adds n w id (walk_node vault_key key_if_openable decrypt_name root n w)
  unfolding walk_node
  walk_node-Adds root n w id there = elim (Bool-cases (n.node_id == root)) [
    | inl e ↦
        rw (walk_node, e)
          (elim (Bool-cases (n.node_id == id)) [
            | inr f ↦ ground arith
            | inl e' ↦
                let same : root ≡ id =
                  sym ((str_beq_iff n.node_id root).0 e) ∙ (str_beq_iff n.node_id id).0 e' in
                let here : accounted id w ≡ true = subst (λ i. accounted i w ≡ true) same there in
                rw here refl
          ])
    | inr f ↦ elim (Bool-cases (parent_in n.parent_id w.cut)) [
      | inl t ↦ rw (walk_node, f, t) (accounted-orphan n w id)
      | inr g ↦ elim (Bool-cases (parent_in n.parent_id w.skipped)) [
        | inl t ↦ rw (walk_node, f, g, t) (accounted-skip n w id)
        | inr h ↦ rw (walk_node, f, g, h) (below-Adds n w id (parent_path_of n.parent_id w.path_of))
      ]
    ]
  ]

  walk_nodes-accounted :
      (root : Str) (nodes : List Change) (w : Walk) (id : Str)
      → accounted root w ≡ true
      → Holds
          (λ s. accounted id s ≡ (accounted id w || any (λ (n : Change). n.node_id == id) nodes))
          (walk_nodes vault_key key_if_openable decrypt_name root nodes (some w))
  unfolding walk_nodes
  walk_nodes-accounted root [] w id there = ground arith
  walk_nodes-accounted root (n ∷ nodes) w id there =
      go (walk_node vault_key key_if_openable decrypt_name root n w)
        (λ i. walk_node-Adds root n w i there) (λ s. walk_nodes-accounted root nodes s id)
    where
      go :
          (o : Option Walk)
          → ((i : Str) → Adds n w i o)
          → ((s : Walk)
              → accounted root s ≡ true
              → Holds
                  (λ s'.
                    accounted id s'
                    ≡ (accounted id s || any (λ (n : Change). n.node_id == id) nodes))
                  (walk_nodes vault_key key_if_openable decrypt_name root nodes (some s)))
          → Holds
              (λ s'.
                accounted id s'
                ≡ (accounted id w || any (λ (n : Change). n.node_id == id) (n ∷ nodes)))
              (walk_nodes vault_key key_if_openable decrypt_name root nodes o)
      go none adds ih = tt
      go (some s) adds ih =
          rejoin (walk_nodes vault_key key_if_openable decrypt_name root nodes (some s))
            (ih s (ground (arith, adds root)))
        where
          rejoin :
              (o : Option Walk)
              → Holds
                  (λ s'.
                    accounted id s'
                    ≡ (accounted id s || any (λ (n : Change). n.node_id == id) nodes))
                  o
              → Holds
                  (λ s'.
                    accounted id s'
                    ≡ (accounted id w || any (λ (n : Change). n.node_id == id) (n ∷ nodes)))
                  o
          rejoin none h = tt
          rejoin (some s') h = ground (arith, adds id)

  -- Where the walk ends, each id of the vault's root and of the nodes, and no other, is accounted for:
  -- it has a path, or it was skipped for a key that has not come, or it was cut off from the root.
  pub accounted-tree_from :
      (nodes : List Change) (root : Str) (w : Walk) (id : Str)
      → tree_from vault_key key_if_openable decrypt_name nodes root ≡ some w
      → accounted id w ≡ (root == id || any (λ (n : Change). n.node_id == id) nodes)
  unfolding tree_from has contains
  accounted-tree_from nodes root w id e =
      let start : Walk = record {
        path_of = (root, []) ∷ [];
        tree = [];
        skipped = [];
        unreadable = [];
        orphans = [];
        cut = [];
      } in
      let here : accounted root start ≡ true = rw ((str_beq_iff root root).1 refl) refl in
      subst
        (Holds (λ s.
          accounted id s ≡ (accounted id start || any (λ (n : Change). n.node_id == id) nodes)))
        e (walk_nodes-accounted root nodes start id here)
      ∙ ground arith
