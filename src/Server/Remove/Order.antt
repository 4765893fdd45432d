-- ===== src/Server/Remove/Order.antt =====
-- The order of server/src/nodes/remove.ts: no level is refused for a child of a doomed node.
use obsidian_syncserver.Prelude.{
  ℕ, ◌+◌, ◌≤◌, ◌<◌, ◌≡◌, refl, sym, subst, ap, true, false, not, ◌&&◌, ◌||◌, Option, none, some,
  List, [], ◌∷◌, ◌++◌, Str, ◌==◌, filter_ext, filter-filter, length, length-filter_twice, any_found,
  any-append, any-sort_by, append_assoc, Elem, Elem-append, Elem-append_left, Elem-append_right,
  filter-Elem, Sorted, sort_by, sort_by-Sorted, Elem-sort_by, sort_by-Elem, str_eq, str_beq_iff,
  nat_eq, nat_beq_iff, arith, Bool-cases, inl, inr, ◌⊎◌, if◌then◌else◌, ◌∙◌, filter-all,
  filter-none, leb→le,
}
use obsidian_syncserver.Server.Store.{Node, Version, Tables}
use obsidian_syncserver.Server.Remove.{
  Doomed, deeper_first, levels_after, named_by, parent_named, holds_parent, holds_root, by_depth,
  without, rows_named, add_rows, remove_levels, remove_nodes_by_depth, levels_of,
}
use obsidian_syncserver.Server.Remove.Roots.{
  RootDoomed, named_by-Elem, root_found, root_held, named_by-append, named_by-nothing,
  named_by-sorted,
}

-- What hangs below a doomed node is doomed with it, at a greater depth.
abbrev pub Closed : Tables → List Doomed → Type 0
Closed t doomed =
    (n : Node) (d : Doomed)
    → Elem n t.nodes
    → Elem d doomed
    → n.vault_id ≡ d.vault_id
    → n.parent_id ≡ some d.id
    → (b : Doomed) × Elem b doomed × (b.vault_id ≡ n.vault_id) × (b.id ≡ n.id) × (d.depth < b.depth)

-- The parent among the doomed that a refused statement has found.
parent_found :
    (level : List Doomed) (vault : Str) (parent : Option Str)
    → parent_named level vault parent ≡ true
    → (d : Doomed) × Elem d level × (vault ≡ d.vault_id) × (parent ≡ some d.id)
parent_found level vault none h = cc
parent_found level vault (some parent) h =
    let (d, m, e) = any_found (λ d. d.vault_id == vault && d.id == parent) level h in
    (
      d,
      m,
      sym ((str_beq_iff d.vault_id vault).0 (ground arith)),
      ap some (sym ((str_beq_iff d.id parent).0 (ground arith))),
    )

-- The deepest of a closed set can go.
holds_parent-deepest :
    (t : Tables) (level rest : List Doomed) (depth : ℕ)
    → Closed t (level ++ rest)
    → ((d : Doomed) → Elem d level → d.depth ≡ depth)
    → ((d : Doomed) → Elem d rest → d.depth ≤ depth)
    → holds_parent level t ≡ false
holds_parent-deepest t level rest depth closed same low = elim (Bool-cases (holds_parent level t)) [
  | inr f ↦ f
  | inl refused ↦
      let (n, mn, e) = any_found (λ n. parent_named level n.vault_id n.parent_id) t.nodes refused in
      let (d, md, e1, e2) = parent_found level n.vault_id n.parent_id e in
      let (b, mb, e3, e4, deeper) = closed n d mn (Elem-append_left d level rest md) e1 e2 in
      let shallow : b.depth ≤ depth = elim (Elem-append b level rest mb) [
        | inl m ↦ omega (arith, same b m)
        | inr m ↦ low b m
      ] in
      absurd (omega (arith, same d md))
]

-- What is left is closed again.
Closed-without :
    (t : Tables) (level rest : List Doomed)
    → Closed t (level ++ rest)
    → Closed (without level t) rest
Closed-without t level rest closed n d mn md e1 e2 =
    let (mn', kept) =
      filter-Elem (λ (n : Node). not (named_by level n.vault_id n.id)) n t.nodes mn in
    let (b, mb, e3, e4, deeper) = closed n d mn' (Elem-append_right d level rest md) e1 e2 in
    elim (Elem-append b level rest mb) [
      | inr m ↦ (b, m, e3, e4, deeper)
      | inl m ↦ absurd (ground (arith, named_by-Elem level b n.vault_id n.id m e3 e4))
    ]

without-append : (t : Tables) (a b : List Doomed) → without b (without a t) ≡ without (a ++ b) t
without-append t a b =
    rw
      (
        filter-filter (λ (n : Node). not (named_by a n.vault_id n.id))
            (λ (n : Node). not (named_by b n.vault_id n.id)) t.nodes,
        filter-filter (λ (v : Version). not (named_by a v.vault_id v.node_id))
            (λ (v : Version). not (named_by b v.vault_id v.node_id)) t.versions,
        filter_ext (λ (n : Node). not (named_by (a ++ b) n.vault_id n.id))
            (λ (n : Node). not (named_by a n.vault_id n.id) && not (named_by b n.vault_id n.id))
            t.nodes
            (λ n. ground (arith, any-append (λ d. d.vault_id == n.vault_id && d.id == n.id) a b)),
        filter_ext (λ (v : Version). not (named_by (a ++ b) v.vault_id v.node_id))
            (λ (v : Version).
              not (named_by a v.vault_id v.node_id) && not (named_by b v.vault_id v.node_id))
            t.versions
            (λ v.
              ground (arith, any-append (λ d. d.vault_id == v.vault_id && d.id == v.node_id) a b)),
      )
      refl

rows_named-append :
    (t : Tables) (a b : List Doomed)
    → rows_named a t + rows_named b (without a t) ≡ rows_named (a ++ b) t
rows_named-append t a b =
    length-filter_twice (λ (n : Node). named_by a n.vault_id n.id)
      (λ (n : Node). named_by b n.vault_id n.id) t.nodes
    ∙ ap length (
        filter_ext (λ (n : Node). named_by a n.vault_id n.id || named_by b n.vault_id n.id)
          (λ (n : Node). named_by (a ++ b) n.vault_id n.id) t.nodes
          (λ n. sym (any-append (λ d. d.vault_id == n.vault_id && d.id == n.id) a b)))

-- What one statement over all the rows would do, were it not refused.
abbrev pub removed_at_once : List Doomed → Tables → Option (Tables × ℕ)
removed_at_once doomed t = some (without doomed t, rows_named doomed t)

-- The same where a share's reference refuses.
abbrev guarded_at_once : List Doomed → Tables → Option (Tables × ℕ)
guarded_at_once doomed t = if holds_root doomed t then none else removed_at_once doomed t

add_rows-rest :
    (t : Tables) (level rest : List Doomed)
    → add_rows (rows_named level t) (removed_at_once rest (without level t))
      ≡ removed_at_once (level ++ rest) t
add_rows-rest t level rest = rw (without-append t level rest, rows_named-append t level rest) refl

remove_levels-deepest :
    (t : Tables) (level : List Doomed) (levels : List (List Doomed)) (rest : List Doomed)
    → holds_parent level t ≡ false
    → remove_levels levels (without level t) ≡ guarded_at_once rest (without level t)
    → remove_levels (level ∷ levels) t ≡ guarded_at_once (level ++ rest) t
unfolding remove_levels
remove_levels-deepest t level levels rest free ih = elim (Bool-cases (holds_root level t)) [
  | inl h ↦ rw (free, named_by-append level rest t.shares, h) refl
  | inr h ↦ elim (Bool-cases (holds_root rest t)) [
    | inl k ↦ rw (free, ih, named_by-append level rest t.shares, h, k) refl
    | inr k ↦ rw (free, ih, named_by-append level rest t.shares, h, k) (add_rows-rest t level rest)
  ]
]

nothing_removed : (t : Tables) → some (t, 0) ≡ guarded_at_once [] t
nothing_removed t =
    rw
      (
        named_by-nothing t.shares,
        filter-all (λ (n : Node). true) t.nodes (λ n m. refl),
        filter-all (λ (v : Version). true) t.versions (λ v m. refl),
        filter-none (λ (n : Node). false) t.nodes (λ n m. refl),
      )
      refl

one_row : (d row : Doomed) → Elem d (row ∷ []) → d.depth ≡ row.depth
one_row d row (inl e) = ap (λ (r : Doomed). r.depth) e
one_row d row (inr m) = absurd m

level_grows :
    (level : List Doomed) (row : Doomed) (depth : ℕ)
    → ((d : Doomed) → Elem d level → d.depth ≡ depth)
    → row.depth ≡ depth
    → (d : Doomed) → Elem d (level ++ (row ∷ []))
    → d.depth ≡ depth
level_grows level row depth same e d m = elim (Elem-append d level (row ∷ []) m) [
  | inl i ↦ same d i
  | inr i ↦ one_row d row i ∙ e
]

remove_levels-after :
    (t : Tables) (depth : ℕ) (level rows : List Doomed)
    → Closed t (level ++ rows)
    → ((d : Doomed) → Elem d level → d.depth ≡ depth)
    → ((d : Doomed) → Elem d rows → d.depth ≤ depth)
    → Sorted deeper_first rows
    → remove_levels (levels_after depth level rows) t ≡ guarded_at_once (level ++ rows) t
unfolding levels_after
remove_levels-after t depth level [] closed same low sorted =
    remove_levels-deepest t level [] [] (holds_parent-deepest t level [] depth closed same low)
      (unfold remove_levels in nothing_removed (without level t))
remove_levels-after t depth level (row ∷ rows) closed same low (first, sorted) =
    elim (Bool-cases (row.depth == depth)) [
      | inl e ↦
          rw (e, levels_after)
            (subst
              (λ ds.
                remove_levels (levels_after depth (level ++ (row ∷ [])) rows) t
                ≡ guarded_at_once ds t)
              (append_assoc level (row ∷ []) rows)
              (remove_levels-after t depth (level ++ (row ∷ [])) rows
                (subst (Closed t) (sym (append_assoc level (row ∷ []) rows)) closed)
                (level_grows level row depth same ((nat_beq_iff row.depth depth).0 e))
                (λ d m. low d (inr m)) sorted))
      | inr e ↦
          rw (e, levels_after)
            (remove_levels-deepest t level (levels_after row.depth (row ∷ []) rows) (row ∷ rows)
              (holds_parent-deepest t level (row ∷ rows) depth closed same low)
              (remove_levels-after (without level t) row.depth (row ∷ []) rows
                (Closed-without t level (row ∷ rows) closed) (λ d m. one_row d row m)
                (λ d m. leb→le d.depth row.depth (first d m)) sorted))
    ]

remove_levels-falling :
    (t : Tables) (rows : List Doomed)
    → Closed t rows
    → Sorted deeper_first rows
    → remove_levels (levels_of rows) t ≡ guarded_at_once rows t
remove_levels-falling t [] closed sorted = unfold remove_levels in nothing_removed t
remove_levels-falling t (row ∷ rows) closed (first, sorted) =
    remove_levels-after t row.depth (row ∷ []) rows closed (λ d m. one_row d row m)
      (λ d m. leb→le d.depth row.depth (first d m)) sorted

Closed-sorted :
    (t : Tables) (doomed : List Doomed) → Closed t doomed → Closed t (sort_by deeper_first doomed)
Closed-sorted t doomed closed n d mn md e1 e2 =
    let (b, mb, e3, e4, deeper) = closed n d mn (sort_by-Elem deeper_first d doomed md) e1 e2 in
    (b, Elem-sort_by deeper_first b doomed mb, e3, e4, deeper)

sorted-at_once :
    (t : Tables) (doomed : List Doomed)
    → guarded_at_once (sort_by deeper_first doomed) t ≡ guarded_at_once doomed t
sorted-at_once t doomed =
    rw
      (
        named_by-sorted doomed t.shares,
        filter_ext (λ (n : Node). named_by (sort_by deeper_first doomed) n.vault_id n.id)
            (λ (n : Node). named_by doomed n.vault_id n.id) t.nodes
            (λ n. any-sort_by deeper_first (λ d. d.vault_id == n.vault_id && d.id == n.id) doomed),
        filter_ext (λ (n : Node). not (named_by (sort_by deeper_first doomed) n.vault_id n.id))
            (λ (n : Node). not (named_by doomed n.vault_id n.id)) t.nodes
            (λ n.
              ap not
                (any-sort_by deeper_first (λ d. d.vault_id == n.vault_id && d.id == n.id) doomed)),
        filter_ext
            (λ (v : Version). not (named_by (sort_by deeper_first doomed) v.vault_id v.node_id))
            (λ (v : Version). not (named_by doomed v.vault_id v.node_id)) t.versions
            (λ v. ap not (
              any-sort_by deeper_first (λ d. d.vault_id == v.vault_id && d.id == v.node_id)
                doomed)),
      )
      refl

-- Where all that hangs below a doomed node is doomed with it, at a greater depth, the statements are
-- refused exactly where a share, ended or not, has one of the doomed as the root of its subtree, and
-- then nothing is answered. Otherwise exactly the doomed rows go, each with its versions, and they
-- are counted.
pub remove_nodes_by_depth_lem :
    (t : Tables) (doomed : List Doomed)
    → Closed t doomed
    → (RootDoomed t doomed × (remove_nodes_by_depth doomed t ≡ none))
      ⊎ (¬ RootDoomed t doomed × (remove_nodes_by_depth doomed t ≡ removed_at_once doomed t))
unfolding remove_nodes_by_depth
remove_nodes_by_depth_lem t doomed closed = elim (Bool-cases (holds_root doomed t)) [
  | inl h ↦ inl (root_found t doomed h, rw h at whole)
  | inr h ↦ inr (λ r. ground (arith, root_held t doomed r), rw h at whole)
]
  where
    whole : remove_levels (by_depth doomed) t ≡ guarded_at_once doomed t
    whole =
        remove_levels-falling t (sort_by deeper_first doomed) (Closed-sorted t doomed closed)
          (sort_by-Sorted deeper_first (λ a b h. ground arith) (λ a b c h k. ground arith) doomed)
        ∙ sorted-at_once t doomed
