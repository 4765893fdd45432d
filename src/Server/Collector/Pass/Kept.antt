-- ===== src/Server/Collector/Pass/Kept.antt =====
-- A whole pass of server/src/collector.ts: when it ends, and that it takes nothing
-- that is in use.
use obsidian_syncserver.Prelude.{
  ℕ, Elem-map, ◌≡◌, refl, sym, subst, subst⁻¹, ap, any, any_of, ◌⊎◌, ◌∙◌, Bool, true, false, not,
  ◌&&◌, Option, none, some, Elem, Str, ◌==◌, Elem-filter, any_found, str_eq, str_beq_iff, arith,
  Bool-cases, inl, inr,
}
use obsidian_syncserver.Server.Store.{Vault, Node, Blob, Tables, is_null}
use obsidian_syncserver.Server.Store.Rows.{is_null_iff}
use obsidian_syncserver.Server.Remove.{named_by, rows_named, without, rootless}
use obsidian_syncserver.Server.Retention.{thin_versions, drop_spent_claims, mark_unreferenced}
use obsidian_syncserver.Server.Retention.Marking.{settle, mark_unreferenced-settle}
use obsidian_syncserver.Server.Retention.Trash.{
  RootSpent, spent_trash, named_row, remove_spent_trash-once,
}
use obsidian_syncserver.Server.Collector.{
  Limits, Files, drop_unbound, clear_pending, sweep_condemned, prune_journal, prune_problems,
}
use obsidian_syncserver.Server.Collector.Safety.{sweep_condemned_iff, remove_orphans_iff}
use obsidian_syncserver.Server.Collector.Pass.{Swept, committed, after_trash, sweep}

-- The primary key of `nodes` at one of its rows.
abbrev pub OnlyRow : Tables → Node → Type 0
OnlyRow t n = (m : Node) → Elem m t.nodes → m.vault_id ≡ n.vault_id → m.id ≡ n.id → m ≡ n

-- The file is there, and a row of `blobs` with the hash and the key.
abbrev Keeps : Blob → Option Swept → Type 0
Keeps b none = Unit
Keeps b (some swept) =
    Elem b.storage_key swept.files
    × ((c : Blob) × Elem c swept.tables.blobs
        × (c.sha256 ≡ b.sha256)
        × (c.storage_key ≡ b.storage_key))

-- A live node is no row of the trash.
named_by-spent_trash :
    (t : Tables) (n : Node)
    → OnlyRow t n
    → n.deleted_at ≡ none
    → named_by (spent_trash t) n.vault_id n.id ≡ false
named_by-spent_trash t n only live = elim (Bool-cases (named_by (spent_trash t) n.vault_id n.id)) [
  | inr f ↦ f
  | inl hit ↦
      let (m, mm, e1, e2, spent) = named_row t n hit in
      absurd (spent.0 (subst⁻¹ (λ (r : Node). r.deleted_at ≡ none) (only m mm e1 e2) live))
]

stays_live :
    (t : Tables) (n : Node)
    → Elem n t.nodes
    → OnlyRow t n
    → n.deleted_at ≡ none
    → Elem n (without (spent_trash t) t).nodes
stays_live t n mn only live =
    Elem-filter (λ (m : Node). not (named_by (spent_trash t) m.vault_id m.id)) n t.nodes mn
      (rw (named_by-spent_trash t n only live) refl)

-- The root of every vault is there, and live.
abbrev pub Rooted : Tables → Type 0
Rooted t =
    (va : Vault)
    → Elem va t.vaults
    → (n : Node) × Elem n t.nodes
      × OnlyRow t n
      × (n.deleted_at ≡ none)
      × (n.vault_id ≡ va.id)
      × (n.id ≡ va.root_node_id)

-- The sweep of the trash leaves every vault its root.
rootless-after : (t : Tables) → Rooted t → rootless (without (spent_trash t) t) ≡ false
rootless-after t rooted = elim (Bool-cases (rootless (without (spent_trash t) t))) [
  | inr f ↦ f
  | inl h ↦
      let here = λ (va : Vault).
        any (λ (n : Node). n.vault_id == va.id && n.id == va.root_node_id)
          (without (spent_trash t) t).nodes in
      let (va, mv, e) = any_found (λ va. not (here va)) t.vaults h in
      let (n, mn, only, live, e1, e2) = rooted va mv in
      let seen : here va ≡ true =
        any_of (λ (n : Node). n.vault_id == va.id && n.id == va.root_node_id)
          (without (spent_trash t) t).nodes n (stays_live t n mn only live)
          (ground (arith, str_beq_iff n.vault_id va.id, str_beq_iff n.id va.root_node_id)) in
      absurd (ground arith)
]

committed_all :
    (t : Tables) (count : ℕ) → rootless t ≡ false → committed (some (t, count)) ≡ some (t, count)
committed_all t count h = rw h refl

module _ (day_of week_of : ℕ → ℕ) (limits : Limits) (stuck : Str → Bool) (parts_swept : ℕ)
    (clock : ℕ → ℕ) where
  -- Where every vault has its root, live and the only row with its key, a pass throws exactly where,
  -- after the thinning, a share has a spent node of the trash as the root of its subtree. Otherwise
  -- it comes to its end, whatever other sessions write between its transactions.
  pub sweep-ends :
      (others : ℕ → Tables → Tables) (t : Tables) (files : Files)
      → Rooted t
      → (RootSpent (thin_versions day_of week_of (clock 0) t).0
          × (sweep day_of week_of limits stuck parts_swept clock others t files ≡ none))
        ⊎ (¬ RootSpent (thin_versions day_of week_of (clock 0) t).0
            × ((swept : Swept) × (sweep day_of week_of limits stuck parts_swept clock others t files
                  ≡ some swept)))
  unfolding sweep thin_versions
  sweep-ends others t files rooted =
      let (t1, thinned) = thin_versions day_of week_of (clock 0) t in
      elim (remove_spent_trash-once t1) [
        | inl p ↦ inl (p.0, rw p.1 refl)
        | inr p ↦ inr (
          p.0,
          (
            _,
            ap (after_trash day_of week_of limits stuck parts_swept clock others thinned files) (
                ap committed p.1
                ∙ committed_all (without (spent_trash t1) t1) (rows_named (spent_trash t1) t1)
                    (rootless-after t1 rooted)),
          ),
        )
      ]

  after_trash-Keeps :
      (t : Tables) (files : Files) (n : Node) (b : Blob) (thinned trash : ℕ)
      → Elem n t.nodes
      → n.sha256 ≡ some b.sha256
      → Elem b t.blobs
      → Elem b.storage_key files
      → Keeps b (
          after_trash day_of week_of limits stuck parts_swept clock
            (λ i s. s)
            thinned
            files
            (some (t, trash)))
  unfolding drop_unbound clear_pending drop_spent_claims mark_unreferenced prune_journal
      prune_problems
  after_trash-Keeps t files n b thinned trash mn holds mb mf =
      let bound = (drop_unbound limits.unbound_blob_ttl (clock 1) t).0 in
      let t3 = (drop_spent_claims (clear_pending limits.unbound_blob_ttl (clock 2) bound).0).0 in
      let marked = (mark_unreferenced (clock 3) t3).0 in
      let b' = settle t3 (clock 3) b in
      let there : Elem b' marked.blobs =
        subst (Elem b') (sym (mark_unreferenced-settle t3 (clock 3)))
          (Elem-map (settle t3 (clock 3)) b t3.blobs mb) in
      let stays =
        (sweep_condemned_iff marked limits.gc_quarantine (clock 4) b' there).1
          (inl (inr (inl (n, mn, holds)))) in
      let (swept, orphans) = sweep_condemned limits.gc_quarantine (clock 4) marked in
      (
        (remove_orphans_iff stuck swept orphans files b.storage_key mf).1
            (inr (inl (b', stays, refl))),
        (b', stays, refl, refl),
      )

  -- In a pass during which no other session writes, the row and the file of a live node's content
  -- stay, where the node's key is its own.
  pub sweep-keeps :
      (t : Tables) (files : Files) (n : Node) (b : Blob) (swept : Swept)
      → Elem n t.nodes
      → OnlyRow t n
      → is_null n.deleted_at ≡ true
      → n.sha256 ≡ some b.sha256
      → Elem b t.blobs
      → Elem b.storage_key files
      → sweep day_of week_of limits stuck parts_swept clock (λ i s. s) t files ≡ some swept
      → Elem b.storage_key swept.files
        × ((c : Blob) × Elem c swept.tables.blobs
            × (c.sha256 ≡ b.sha256)
            × (c.storage_key ≡ b.storage_key))
  unfolding sweep thin_versions drop_unbound clear_pending drop_spent_claims prune_journal
      prune_problems
  sweep-keeps t files n b swept mn only live holds mb mf e =
      let t1 = (thin_versions day_of week_of (clock 0) t).0 in
      let here : Elem n t1.nodes = mn in
      elim (remove_spent_trash-once t1) [
        | inl p ↦ absurd (no_pass (rw p.1 at e))
        | inr p ↦ elim (Bool-cases (rootless (without (spent_trash t1) t1))) [
          | inl h ↦ absurd (no_pass (rw (p.1, h) at e))
          | inr h ↦ subst (Keeps b) (rw (p.1, h) at e) (
              after_trash-Keeps (without (spent_trash t1) t1) files n b
                (thin_versions day_of week_of (clock 0) t).1 (rows_named (spent_trash t1) t1)
                (stays_live t1 n here only ((is_null_iff n.deleted_at).0 live)) holds mb mf)
        ]
      ]
    where
      no_pass : none ≡ some swept → ⊥
      no_pass h = cc
