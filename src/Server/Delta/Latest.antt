-- ===== src/Server/Delta/Latest.antt =====
-- What the query of server/src/delta/service.ts selects: the latest row of each node in the snapshot.
use obsidian_syncserver.Prelude.{
  ℕ, ◌≤◌, ◌<◌, ◌≡◌, refl, sym, true, false, Elem, Elem-filter, filter-Elem, any, any_found, any_of,
  any_nowhere, Elem-sort_by, sort_by-Elem, filter, Str, str_eq, str_beq_iff, arith, ◌∙◌,
}
use obsidian_syncserver.Server.Store.{JournalRow, Node, Tables}
use obsidian_syncserver.Server.Replica.{is_node}
use obsidian_syncserver.Server.Delta.{is_later, is_latest, after, by_rev, rows_between}

-- In the journal of the vault the node has a row of this revision, which is after `from` and no later
-- than `up_to`; of the node's rows up to there none is later; and the node is there.
abbrev pub LatestRow : Tables → Str → ℕ → ℕ → Str → ℕ → Type 0
LatestRow t vault from up_to node rev =
    ((j : JournalRow) × Elem j t.journal
      × (j.vault_id ≡ vault)
      × (j.node_id ≡ node)
      × (j.rev ≡ rev))
    × (from < rev)
    × (rev ≤ up_to)
    × ((n : Node) × Elem n t.nodes × (n.vault_id ≡ vault) × (n.id ≡ node))
    × ((l : JournalRow)
        → Elem l t.journal
        → l.vault_id ≡ vault
        → l.node_id ≡ node
        → l.rev ≤ up_to
        → l.rev ≤ rev)

module _ (t : Tables) (vault : Str) (from up_to : ℕ) where
  pub rows_between-LatestRow :
      (j : JournalRow)
      → Elem j (rows_between t vault from up_to)
      → LatestRow t vault from up_to j.node_id j.rev
  unfolding rows_between
  rows_between-LatestRow j m =
      let (m1, past) =
        filter-Elem (after from) j (filter (is_latest t vault up_to) t.journal)
          (sort_by-Elem by_rev j _ m) in
      let (m2, h) = filter-Elem (is_latest t vault up_to) j t.journal m1 in
      let of_vault : j.vault_id ≡ vault = (str_beq_iff j.vault_id vault).0 (ground arith) in
      let (n, mn, e) = any_found (is_node j.vault_id j.node_id) t.nodes (ground arith) in
      (
        (j, m2, of_vault, refl, refl),
        ground (arith, past),
        ground (arith, h),
        (
          n,
          mn,
          (str_beq_iff n.vault_id j.vault_id).0 (ground arith) ∙ of_vault,
          (str_beq_iff n.id j.node_id).0 (ground arith),
        ),
        λ l ml e1 e2 low. ground (
          arith,
          any_of (is_later up_to j) t.journal l ml,
          (str_beq_iff l.vault_id j.vault_id).1 (e1 ∙ sym of_vault),
          (str_beq_iff l.node_id j.node_id).1 e2,
          low,
          h,
        ),
      )

  pub LatestRow-rows_between :
      (node : Str) (rev : ℕ)
      → LatestRow t vault from up_to node rev
      → (j : JournalRow) × Elem j (rows_between t vault from up_to)
        × (j.node_id ≡ node)
        × (j.rev ≡ rev)
  unfolding rows_between
  LatestRow-rows_between node rev ((j, mj, e1, e2, e3), past, low, (n, mn, f1, f2), latest) =
      let none_later : any (is_later up_to j) t.journal ≡ false =
        any_nowhere (is_later up_to j) t.journal (λ l ml h.
          let le : l.rev ≤ rev =
            latest l ml ((str_beq_iff l.vault_id j.vault_id).0 (ground (arith, h)) ∙ e1)
              ((str_beq_iff l.node_id j.node_id).0 (ground (arith, h)) ∙ e2) (ground (arith, h)) in
          ground (arith, h, le, e3)) in
      let there : any (is_node j.vault_id j.node_id) t.nodes ≡ true =
        any_of (is_node j.vault_id j.node_id) t.nodes n mn (
          ground (
            arith,
            (str_beq_iff n.vault_id j.vault_id).1 (f1 ∙ sym e1),
            (str_beq_iff n.id j.node_id).1 (f2 ∙ sym e2),
          )) in
      (
        j,
        Elem-sort_by by_rev j _ (
            Elem-filter (after from) j _
              (Elem-filter (is_latest t vault up_to) j t.journal mj
                (ground (arith, there, none_later, (str_beq_iff j.vault_id vault).1 e1, low, e3)))
              (ground (arith, past, e3))),
        e2,
        e3,
      )
