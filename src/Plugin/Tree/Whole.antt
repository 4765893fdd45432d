-- ===== src/Plugin/Tree/Whole.antt =====
-- A walk that meets every node after its parent (plugin/src/engine/tree.ts) cuts nothing off.
use obsidian_syncserver.Prelude.{
  ◌≡◌, ◌≢◌, refl, sym, subst, subst⁻¹, ◌∙◌, true, false, not, ◌&&◌, Option, none, some, List, [],
  ◌∷◌, ◌++◌, Elem, Str, ◌==◌, has, lookup, contains, truthy, str_eq, option_eq, arith, Bool-cases,
  Option-cases, ◌⊎◌, inl, inr, map, has-eq-lookup, append_assoc,
}
use obsidian_syncserver.Plugin.Tree.{
  Change, Walk, parent_in, parent_path_of, told, unread, key_of, named, placed_as, opened_with,
  below, walk_node, walk_nodes, tree_from,
}
use obsidian_syncserver.Plugin.Tree.Walked.{accounted, Holds, Adds, walk_node-Adds}

-- Nothing is cut off.
abbrev pub Whole : Walk → Type 0
Whole w = (w.cut ≡ []) × (w.orphans ≡ [])

-- The root, or a node whose parent is among these.
abbrev pub Reached : Str → List Str → Change → Type 0
Reached root ids n =
    (n.node_id ≡ root)
    ⊎ ((parent : Str) × (n.parent_id ≡ some parent) × (parent ≢ []) × Elem parent (root ∷ ids))

abbrev pub change_id : Change → Str
change_id n = n.node_id

abbrev pub ParentsFirst : Str → List Change → Type 0
ParentsFirst root nodes =
    (before behind : List Change) (n : Change)
    → nodes ≡ before ++ (n ∷ behind)
    → Reached root (map change_id before) n

truthy-full : (a : Str) → a ≢ [] → truthy (some a) ≡ true
truthy-full [] h = absurd (h refl)
truthy-full (c ∷ a) h = refl

map-Elem_last :
    (n : Change) (id : Str) (before : List Change)
    → Elem id (map change_id (before ++ (n ∷ [])))
    → Elem id (map change_id before) ⊎ (id ≡ n.node_id)
map-Elem_last n id [] (inl e) = inr e
map-Elem_last n id [] (inr m) = absurd m
map-Elem_last n id (b ∷ before) (inl e) = inl (inl e)
map-Elem_last n id (b ∷ before) (inr m) = elim (map-Elem_last n id before m) [
  | inl old ↦ inl (inr old)
  | inr new ↦ inr new
]

at_root : (P : Str → Type 0) (root id : Str) → P root → Elem id (root ∷ []) → P id
at_root P root id p (inl e) = subst⁻¹ P e p
at_root P root id p (inr m) = absurd m

not_cut :
    (n : Change) (w : Walk) (parent : Str)
    → n.parent_id ≡ some parent
    → Whole w
    → parent_in n.parent_id w.cut ≡ false
unfolding contains
not_cut n w parent e h = rw (e, h.0) (ground arith)

parent_path-found :
    (n : Change) (w : Walk) (parent : Str)
    → n.parent_id ≡ some parent
    → truthy (some parent) ≡ true
    → Whole w
    → parent_in n.parent_id w.skipped ≡ false
    → accounted parent w ≡ true
    → (path : Str) × (parent_path_of n.parent_id w.path_of ≡ some path)
unfolding contains
parent_path-found n w parent e full h g there =
    let unskipped : parent_in (some parent) w.skipped ≡ false =
      subst (λ o. parent_in o w.skipped ≡ false) e g in
    let uncut : contains parent w.cut ≡ false = rw (h.0) refl in
    let held : has parent w.path_of ≡ true = ground (arith, unskipped, full, uncut, there) in
    elim (Option-cases (lookup parent w.path_of)) [
      | inl none_there ↦ absurd (ground (arith, held, has-eq-lookup parent w.path_of, none_there))
      | inr (path, at) ↦ (path, rw (e, full, at) refl)
    ]

module _ {Key : Type 0} (vault_key : Key) (key_if_openable : Option Str → Option Key)
    (decrypt_name : Key → Str → Option Str) where
  unread-Whole : (n : Change) (parent : Str) (w : Walk) → Whole w → Whole (unread n parent w)
  unread-Whole n parent w h =
      elim (Bool-cases (truthy (some parent) && not (told n.name_key_id w.unreadable))) [
        | inl t ↦ rw t h
        | inr f ↦ rw f h
      ]

  below-Whole :
      (n : Change) (w : Walk) (parent : Str)
      → Whole w
      → Holds Whole (below vault_key key_if_openable decrypt_name n w (some parent))
  below-Whole n w parent h = opened (key_of vault_key key_if_openable decrypt_name n)
    where
      named_as :
          (name : Option Str)
          → Holds Whole (placed_as vault_key key_if_openable decrypt_name n parent w name)
      named_as none = tt
      named_as (some name) = h

      opened :
          (key : Option Key)
          → Holds Whole (opened_with vault_key key_if_openable decrypt_name n parent w key)
      opened none = unread-Whole n parent w h
      opened (some key) =
          named_as (named vault_key key_if_openable decrypt_name n.name_enc key n.node_id)

  walk_node-Whole :
      (root : Str) (n : Change) (w : Walk) (ids : List Str)
      → Whole w
      → ((id : Str) → Elem id (root ∷ ids) → accounted id w ≡ true)
      → Reached root ids n
      → Holds Whole (walk_node vault_key key_if_openable decrypt_name root n w)
  unfolding walk_node
  walk_node-Whole root n w ids h there (inl e) =
      rw (walk_node, (str_eq.same_iff n.node_id root).1 e) h
  walk_node-Whole root n w ids h there (inr (parent, e, full, m)) =
      elim (Bool-cases (n.node_id == root)) [
        | inl t ↦ rw (walk_node, t) h
        | inr f ↦ elim (Bool-cases (parent_in n.parent_id w.skipped)) [
          | inl t ↦ rw (walk_node, f, not_cut n w parent e h, t) h
          | inr g ↦
              let (path, found) =
                parent_path-found n w parent e (truthy-full parent full) h g (there parent m) in
              rw (walk_node, f, not_cut n w parent e h, g, found) (below-Whole n w path h)
        ]
      ]

  walk_nodes-Whole :
      (root : Str) (nodes before rest : List Change) (w : Walk)
      → ParentsFirst root nodes
      → nodes ≡ before ++ rest
      → Whole w
      → ((id : Str) → Elem id (root ∷ map change_id before) → accounted id w ≡ true)
      → Holds Whole (walk_nodes vault_key key_if_openable decrypt_name root rest (some w))
  unfolding walk_nodes
  walk_nodes-Whole root nodes before [] w first e h there = h
  walk_nodes-Whole root nodes before (n ∷ rest) w first e h there =
      go (walk_node vault_key key_if_openable decrypt_name root n w)
        (λ id.
          walk_node-Adds vault_key key_if_openable decrypt_name root n w id (there root (inl refl)))
        (walk_node-Whole root n w (map change_id before) h there (first before rest n e))
        (λ s whole still.
          walk_nodes-Whole root nodes (before ++ (n ∷ [])) rest s first
            (e ∙ sym (append_assoc before (n ∷ []) rest)) whole still)
    where
      go :
          (o : Option Walk)
          → ((id : Str) → Adds vault_key key_if_openable decrypt_name n w id o)
          → Holds Whole o
          → ((s : Walk)
              → Whole s
              → ((id : Str)
                  → Elem id (root ∷ map change_id (before ++ (n ∷ [])))
                  → accounted id s ≡ true)
              → Holds Whole (walk_nodes vault_key key_if_openable decrypt_name root rest (some s)))
          → Holds Whole (walk_nodes vault_key key_if_openable decrypt_name root rest o)
      go none adds whole ih = tt
      go (some s) adds whole ih = ih s whole (λ id m. still id m)
        where
          kept : (id : Str) → accounted id w ≡ true → accounted id s ≡ true
          kept id old = ground (arith, adds id, old)

          still :
              (id : Str)
              → Elem id (root ∷ map change_id (before ++ (n ∷ [])))
              → accounted id s ≡ true
          still id (inl r) = kept id (there id (inl r))
          still id (inr m) = elim (map-Elem_last n id before m) [
            | inl old ↦ kept id (there id (inr old))
            | inr new ↦ ground (arith, adds id, (str_eq.same_iff n.node_id id).1 (sym new))
          ]

  -- Where every node but the root comes after its parent, nothing is cut off.
  pub tree_from-Whole :
      (nodes : List Change) (root : Str) (w : Walk)
      → ParentsFirst root nodes
      → tree_from vault_key key_if_openable decrypt_name nodes root ≡ some w
      → w.orphans ≡ []
  unfolding tree_from has contains
  tree_from-Whole nodes root w first e =
      let start : Walk = record {
        path_of = (root, []) ∷ [];
        tree = [];
        skipped = [];
        unreadable = [];
        orphans = [];
        cut = [];
      } in
      let here : accounted root start ≡ true = rw ((str_eq.same_iff root root).1 refl) refl in
      let base : (id : Str) → Elem id (root ∷ []) → accounted id start ≡ true =
        λ id m. at_root (λ i. accounted i start ≡ true) root id here m in
      (subst (Holds Whole) e
        (walk_nodes-Whole root nodes [] nodes start first refl (refl, refl) base)).1
