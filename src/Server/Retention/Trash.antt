-- ===== src/Server/Retention/Trash.antt =====
-- The trash of server/src/retention.ts: what its sweep removes, and when the database refuses it.
use obsidian_syncserver.Prelude.{
  ℕ, ◌≡◌, ◌≢◌, ◌↔◌, ◌⊎◌, refl, true, false, not, ◌&&◌, none, some, List, map, ◌==◌, filter,
  filter-Elem, Elem-filter, filter-all, any, any_of, any_found, any_nowhere, Elem-map, map-Elem,
  Elem, str_eq, str_beq_iff, arith, inl, inr, ap, sym, ◌∙◌, Bool-cases,
}
use obsidian_syncserver.Server.Store.{Node, Version, Share, Tables, equals}
use obsidian_syncserver.Server.Store.Rows.{not_null_iff}
use obsidian_syncserver.Server.Remove.{Doomed, named_by, without}
use obsidian_syncserver.Server.Remove.Roots.{RootDoomed, named_by-Elem}
use obsidian_syncserver.Server.Remove.Order.{Closed, removed_at_once, remove_nodes_by_depth_lem}
use obsidian_syncserver.Server.Retention.Marking.{equals_iff}
use obsidian_syncserver.Server.Retention.{is_spent_trash, doomed_row, remove_spent_trash}

child_seen :
    (t : Tables) (n child : Node)
    → is_spent_trash t n ≡ true
    → Elem child t.nodes
    → child.vault_id ≡ n.vault_id
    → child.parent_id ≡ some n.id
    → ⊥
child_seen t n child h m e1 e2 =
    let hit : (child.vault_id == n.vault_id && equals child.parent_id n.id) ≡ true =
      rw e2 (ground (arith, str_beq_iff child.vault_id n.vault_id, str_beq_iff n.id n.id)) in
    ground (
      arith,
      any_of (λ (c : Node). c.vault_id == n.vault_id && equals c.parent_id n.id) t.nodes child m
          hit,
    )

-- A trashed node that has neither a version nor anything below it.
abbrev pub Spent : Tables → Node → Type 0
Spent t n =
    (n.deleted_at ≢ none)
    × ((v : Version) → Elem v t.versions → v.vault_id ≡ n.vault_id → v.node_id ≢ n.id)
    × ((c : Node) → Elem c t.nodes → c.vault_id ≡ n.vault_id → c.parent_id ≢ some n.id)

-- A share has such a node as the root of its subtree.
abbrev pub RootSpent : Tables → Type 0
RootSpent t =
    (s : Share) × Elem s t.shares
    × ((n : Node) × Elem n t.nodes
        × Spent t n
        × (n.vault_id ≡ s.initiator_vault_id)
        × (n.id ≡ s.subtree_node_id))

abbrev pub spent_trash : Tables → List Doomed
spent_trash t = map doomed_row (filter (is_spent_trash t) t.nodes)

pub is_spent_trash-Spent : (t : Tables) (n : Node) → is_spent_trash t n ≡ true → Spent t n
is_spent_trash-Spent t n h = (
  (not_null_iff n.deleted_at).0 (ground arith),
  λ v m e1 e2. ground (
    arith,
    any_of (λ (v : Version). v.vault_id == n.vault_id && v.node_id == n.id) t.versions v m
        (ground (arith, str_beq_iff v.vault_id n.vault_id, str_beq_iff v.node_id n.id)),
  ),
  λ c m e1 e2. child_seen t n c h m e1 e2,
)

is_spent_trash_if : (t : Tables) (n : Node) → Spent t n → is_spent_trash t n ≡ true
is_spent_trash_if t n (gone, bare, childless) =
    let no_version : any (λ (v : Version). v.vault_id == n.vault_id && v.node_id == n.id) t.versions
        ≡ false =
      any_nowhere (λ (v : Version). v.vault_id == n.vault_id && v.node_id == n.id) t.versions
        (λ v m h.
          bare v m ((str_beq_iff v.vault_id n.vault_id).0 (ground arith))
            ((str_beq_iff v.node_id n.id).0 (ground arith))) in
    let no_child : any (λ (c : Node). c.vault_id == n.vault_id && equals c.parent_id n.id) t.nodes
        ≡ false =
      any_nowhere (λ (c : Node). c.vault_id == n.vault_id && equals c.parent_id n.id) t.nodes
        (λ c m h.
          childless c m ((str_beq_iff c.vault_id n.vault_id).0 (ground arith))
            ((equals_iff c.parent_id n.id).0 (ground arith))) in
    ground (arith, (not_null_iff n.deleted_at).1 gone)

spent_trash-Closed : (t : Tables) → Closed t (spent_trash t)
spent_trash-Closed t child d m md e1 e2 =
    let (n, i, e) = map-Elem doomed_row d (filter (is_spent_trash t) t.nodes) md in
    let (in_nodes, spent) = filter-Elem (is_spent_trash t) n t.nodes i in
    absurd (
      child_seen t n child spent m (e1 ∙ ap (λ (r : Doomed). r.vault_id) e)
        (e2 ∙ ap (λ (r : Doomed). some r.id) e))

pub Elem-spent_trash :
    (t : Tables) (n : Node) → Elem n t.nodes → Spent t n → Elem (doomed_row n) (spent_trash t)
Elem-spent_trash t n m h =
    Elem-map doomed_row n (filter (is_spent_trash t) t.nodes)
      (Elem-filter (is_spent_trash t) n t.nodes m (is_spent_trash_if t n h))

pub spent_trash-Elem :
    (t : Tables) (d : Doomed)
    → Elem d (spent_trash t)
    → (n : Node) × Elem n t.nodes × Spent t n × (d ≡ doomed_row n)
spent_trash-Elem t d m =
    let (n, i, e) = map-Elem doomed_row d (filter (is_spent_trash t) t.nodes) m in
    let (j, h) = filter-Elem (is_spent_trash t) n t.nodes i in (n, j, is_spent_trash-Spent t n h, e)

RootDoomed-Spent : (t : Tables) → RootDoomed t (spent_trash t) → RootSpent t
RootDoomed-Spent t (s, ms, (d, md, e1, e2)) =
    let (n, mn, h, e) = spent_trash-Elem t d md in
    (
      s,
      ms,
      (
        n,
        mn,
        h,
        sym (ap (λ (r : Doomed). r.vault_id) e) ∙ e1,
        sym (ap (λ (r : Doomed). r.id) e) ∙ e2,
      ),
    )

RootSpent-Doomed : (t : Tables) → RootSpent t → RootDoomed t (spent_trash t)
RootSpent-Doomed t (s, ms, (n, mn, h, e1, e2)) =
    (s, ms, (doomed_row n, Elem-spent_trash t n mn h, e1, e2))

-- The doomed statement over the spent trash, with what it comes to.
pub remove_spent_trash-once :
    (t : Tables)
    → (RootSpent t × (remove_spent_trash t ≡ none))
      ⊎ (¬ RootSpent t × (remove_spent_trash t ≡ removed_at_once (spent_trash t) t))
unfolding remove_spent_trash
remove_spent_trash-once t =
    elim (remove_nodes_by_depth_lem t (spent_trash t) (spent_trash-Closed t)) [
      | inl p ↦ inl (RootDoomed-Spent t p.0, p.1)
      | inr p ↦ inr (λ r. p.0 (RootSpent-Doomed t r), p.1)
    ]

-- The spent row with a key that the statement names.
pub named_row :
    (t : Tables) (n : Node)
    → named_by (spent_trash t) n.vault_id n.id ≡ true
    → (m : Node) × Elem m t.nodes × (m.vault_id ≡ n.vault_id) × (m.id ≡ n.id) × Spent t m
named_row t n h =
    let (d, md, e) = any_found (λ d. d.vault_id == n.vault_id && d.id == n.id) (spent_trash t) h in
    let (m, mm, k, same) = spent_trash-Elem t d md in
    (
      m,
      mm,
      sym (ap (λ (r : Doomed). r.vault_id) same)
          ∙ (str_beq_iff d.vault_id n.vault_id).0 (ground arith),
      sym (ap (λ (r : Doomed). r.id) same) ∙ (str_beq_iff d.id n.id).0 (ground arith),
      k,
    )

-- No version hangs on a spent row.
versions_stay : (t : Tables) → (without (spent_trash t) t).versions ≡ t.versions
versions_stay t =
    filter-all (λ (v : Version). not (named_by (spent_trash t) v.vault_id v.node_id)) t.versions
      (λ v m. elim (Bool-cases (named_by (spent_trash t) v.vault_id v.node_id)) [
        | inr k ↦ rw k refl
        | inl k ↦
            let (d, md, e) =
              any_found (λ d. d.vault_id == v.vault_id && d.id == v.node_id) (spent_trash t) k in
            let (n, mn, h, same) = spent_trash-Elem t d md in
            absurd (
              h.1 v m
                (sym ((str_beq_iff d.vault_id v.vault_id).0 (ground arith))
                  ∙ ap (λ (r : Doomed). r.vault_id) same)
                (sym ((str_beq_iff d.id v.node_id).0 (ground arith))
                  ∙ ap (λ (r : Doomed). r.id) same))
      ])

-- A row of the table goes where it is spent, and only there.
row_after :
    (t : Tables) (n : Node)
    → Elem n t.nodes
    → Elem n (without (spent_trash t) t).nodes
      ↔ ¬ ((m : Node) × Elem m t.nodes × (m.vault_id ≡ n.vault_id) × (m.id ≡ n.id) × Spent t m)
row_after t n mn = (
  λ i (m, mm, e1, e2, h).
      let (j, k) =
        filter-Elem (λ (m : Node). not (named_by (spent_trash t) m.vault_id m.id)) n t.nodes i in
      ground (
        arith,
        named_by-Elem (spent_trash t) (doomed_row m) n.vault_id n.id (Elem-spent_trash t m mm h) e1
            e2,
      ),
  λ f.
      Elem-filter (λ (m : Node). not (named_by (spent_trash t) m.vault_id m.id)) n t.nodes mn
        (elim (Bool-cases (named_by (spent_trash t) n.vault_id n.id)) [
          | inr k ↦ rw k refl
          | inl k ↦ absurd (f (named_row t n k))
        ]),
)

-- Sweeping the trash is refused exactly where a share, ended or not, has a spent node as the root of
-- its subtree: one in the trash, with neither a version nor a row below it. Otherwise the rows that
-- stay are exactly those whose key no spent row has, and every version stays.
pub remove_spent_trash_lem :
    (t : Tables)
    → (RootSpent t × (remove_spent_trash t ≡ none))
      ⊎ (¬ RootSpent t
          × ((s : Tables) × (count : ℕ) × (remove_spent_trash t ≡ some (s, count))
              × (s.versions ≡ t.versions)
              × ((n : Node)
                  → Elem n t.nodes
                  → Elem n s.nodes
                    ↔ ¬ (
                        (m : Node) × Elem m t.nodes
                        × (m.vault_id ≡ n.vault_id)
                        × (m.id ≡ n.id)
                        × Spent t m))))
remove_spent_trash_lem t = elim (remove_spent_trash-once t) [
  | inl p ↦ inl p
  | inr p ↦
      inr (p.0, (without (spent_trash t) t, _, p.1, versions_stay t, λ n mn. row_after t n mn))
]
