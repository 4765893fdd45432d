-- ===== src/Server/Delta/Device.antt =====
-- A device that walks the listing of a vault: `listSubtree` of server/src/delta/service.ts read by
-- `treeFrom` of plugin/src/engine/tree.ts.
use obsidian_syncserver.Prelude.{
  ◌≡◌, ◌≢◌, refl, sym, ap, ◌∙◌, subst, subst⁻¹, ◌⊎◌, inl, inr, true, Option, none, some, List, [],
  ◌∷◌, ◌++◌, Elem, Str, map, str_eq, arith, filter-Elem, sort_by-Elem, Elem-append_right,
}
use obsidian_syncserver.Server.Store.{SealedName, Node, Tables, is_null}
use obsidian_syncserver.Server.Delta.{ChangeRow}
use obsidian_syncserver.Server.Delta.Listing.{
  is_listed, by_depth_and_id, listed_as, listed_nodes, list_subtree, listed_nodes-parent,
}
use obsidian_syncserver.Plugin.Tree.{Change, Walk, tree_from}
use obsidian_syncserver.Plugin.Tree.Whole.{Reached, ParentsFirst, change_id, tree_from-Whole}

abbrev enc_of : Option SealedName → Option Str
enc_of none = none
enc_of (some name) = some name.enc

abbrev key_id_of : Option SealedName → Option Str
key_id_of none = none
key_id_of (some name) = some name.key_id

-- What the plugin reads of a row of the server's answer.
abbrev pub received : ChangeRow → Change
received c = record {
  node_id = c.node_id;
  parent_id = c.parent_id;
  name_enc = enc_of c.name;
  name_key_id = key_id_of c.name;
  sha256 = c.sha256;
  rev = c.rev;
  share_id = c.share_id;
  author_id = c.author_id;
}

-- Every live node of the vault is its root, or lies in a live node whose chain it carries on.
abbrev pub Planted : Tables → Str → Str → Type 0
Planted t vault root =
    (n : Node)
    → Elem n t.nodes
    → n.vault_id ≡ vault
    → is_null n.deleted_at ≡ true
    → (n.id ≡ root)
      ⊎ ((p : Node) × Elem p t.nodes
          × (p.vault_id ≡ vault)
          × (is_null p.deleted_at ≡ true)
          × (n.parent_id ≡ some p.id)
          × (p.id ≢ [])
          × (n.ancestry ≡ p.ancestry ++ (p.id ∷ [])))

abbrev told_as : Tables → Node → Change
told_as t n = received (listed_as t n)

map-map : (t : Tables) (ns : List Node) → map received (map (listed_as t) ns) ≡ map (told_as t) ns
map-map t [] = refl
map-map t (n ∷ ns) = ap (λ cs. told_as t n ∷ cs) (map-map t ns)

-- A list of what was told, taken apart, is the nodes taken apart.
map-split :
    (t : Tables) (ns : List Node) (before behind : List Change) (c : Change)
    → map (told_as t) ns ≡ before ++ (c ∷ behind)
    → (above : List Node) × (n : Node) × (below : List Node) × (ns ≡ above ++ (n ∷ below))
      × (map (told_as t) above ≡ before)
      × (told_as t n ≡ c)
map-split t [] [] behind c e = cc
map-split t [] (b ∷ before) behind c e = cc
map-split t (n ∷ ns) [] behind c e = ([], n, ns, refl, refl, cc)
map-split t (n ∷ ns) (b ∷ before) behind c e =
    let tail : map (told_as t) ns ≡ before ++ (c ∷ behind) = cc in
    let head : told_as t n ≡ b = cc in
    let (above, m, below, e1, e2, e3) = map-split t ns before behind c tail in
    (
      n ∷ above,
      m,
      below,
      ap (λ ms. n ∷ ms) e1,
      ap (λ x. x ∷ map (told_as t) above) head ∙ ap (λ cs. b ∷ cs) e2,
      e3,
    )

map-Elem_id :
    (t : Tables) (p : Node) (ns : List Node)
    → Elem p ns
    → Elem p.id (map change_id (map (told_as t) ns))
map-Elem_id t p (n ∷ ns) (inl e) = inl (ap (λ (n : Node). n.id) e)
map-Elem_id t p (n ∷ ns) (inr m) = inr (map-Elem_id t p ns m)
map-Elem_id t p [] m = absurd m

module _ (t : Tables) (vault root : Str) (planted : Planted t vault root) where
  listed-ParentsFirst : ParentsFirst root (map (told_as t) (listed_nodes t vault none))
  unfolding listed_nodes
  listed-ParentsFirst before behind c e =
      let nodes = listed_nodes t vault none in
      let (above, n, below, e1, e2, e3) = map-split t nodes before behind c e in
      let m : Elem n nodes =
        subst⁻¹ (Elem n) e1 (Elem-append_right n above (n ∷ below) (inl refl)) in
      let at = filter-Elem (is_listed vault none) n t.nodes (sort_by-Elem by_depth_and_id n _ m) in
      placed n above below (planted n at.0 (in_vault n at.1) (alive n at.1)) e1 e2 e3
    where
      in_vault : (n : Node) → is_listed vault none n ≡ true → n.vault_id ≡ vault
      in_vault n l = (str_eq.same_iff n.vault_id vault).0 (ground (arith, l))

      alive : (n : Node) → is_listed vault none n ≡ true → is_null n.deleted_at ≡ true
      alive n l = ground (arith, l)

      placed :
          (n : Node) (above below : List Node)
          → (n.id ≡ root)
            ⊎ ((p : Node) × Elem p t.nodes
                × (p.vault_id ≡ vault)
                × (is_null p.deleted_at ≡ true)
                × (n.parent_id ≡ some p.id)
                × (p.id ≢ [])
                × (n.ancestry ≡ p.ancestry ++ (p.id ∷ [])))
          → listed_nodes t vault none ≡ above ++ (n ∷ below)
          → map (told_as t) above ≡ before
          → told_as t n ≡ c
          → Reached root (map change_id before) c
      placed n above below (inl r) e1 e2 e3 = inl (ap change_id (sym e3) ∙ r)
      placed n above below (inr (p, pm, pv, pl, parent, full, chain)) e1 e2 e3 =
          let listed : is_listed vault none p ≡ true =
            ground (arith, (str_eq.same_iff p.vault_id vault).1 pv, pl) in
          let earlier = listed_nodes-parent t vault none n p above below e1 pm listed chain in
          inr (
            p.id,
            ap (λ (c : Change). c.parent_id) (sym e3) ∙ parent,
            full,
            inr (subst (λ cs. Elem p.id (map change_id cs)) e2 (map-Elem_id t p above earlier)),
          )

  -- A device that walks the whole listing of a vault in which every live node but the root lies in a
  -- live node and carries on its chain finds, if no name fails to decrypt, no node cut off from the
  -- root, whatever keys it has.
  pub tree_from-list_subtree :
      {Key : Type 0} (vault_key : Key) (key_if_openable : Option Str → Option Key)
      (decrypt_name : Key → Str → Option Str) (w : Walk)
      → tree_from vault_key key_if_openable decrypt_name
          (map received (list_subtree t vault none))
          root
        ≡ some w
      → w.orphans ≡ []
  unfolding list_subtree
  tree_from-list_subtree vault_key key_if_openable decrypt_name w e =
      tree_from-Whole vault_key key_if_openable decrypt_name
        (map received (list_subtree t vault none)) root w
        (subst⁻¹ (ParentsFirst root) (map-map t (listed_nodes t vault none)) listed-ParentsFirst) e
