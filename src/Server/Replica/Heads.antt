-- ===== src/Server/Replica/Heads.antt =====
-- Revisions stay within the head of their vault (server/src/revision.ts), and the statements of
-- server/src/shares/replica.ts keep it so.
use obsidian_syncserver.Server.Store.Rows.{one_where-Elem}
use obsidian_syncserver.Prelude.{
  ℕ, ◌≤◌, ◌≡◌, refl, sym, ap, ◌∙◌, subst, subst⁻¹, ◌⊎◌, inl, inr, true, Option, none, some, List,
  [], ◌∷◌, ◌++◌, Elem, Elem-append, not_failed, ◌&&◌, nat_eq, Str, codes, ◌==◌, any, str_eq,
  str_beq_iff, arith, if◌then◌else◌,
}
use obsidian_syncserver.Server.Store.{
  Vault, Node, JournalRow, JournalOp, Version, Tables, one_where,
}
use obsidian_syncserver.Server.Holdings.{
  next_head, advanced, with_head, head_of, next_rev, journal_entry, record_version, claim_blob,
  bind_blob,
}
use obsidian_syncserver.Server.Holdings.Claims.{update_where-Elem}
use obsidian_syncserver.Server.Ancestry.{rewrite_subtree_ancestry, is_below, rechained}
use obsidian_syncserver.Server.Tx.{modify}
use obsidian_syncserver.Server.Tx.Rules.{Ends, Keeps, After, Ends-attempt}
use obsidian_syncserver.Server.Replica.{
  take_rev, rev_of, journal, add_version, is_node, update_node, insert_node, add_node, taken,
}

-- Every vault has one row, and no node and no journal row of a vault is beyond its head.
pub record Within (t : Tables) : Type 0 where
  pub one_row : (a b : Vault) → Elem a t.vaults → Elem b t.vaults → a.id ≡ b.id → a ≡ b
  pub nodes_within :
      (n : Node) (va : Vault)
      → Elem n t.nodes
      → Elem va t.vaults
      → va.id ≡ n.vault_id
      → n.rev ≤ va.head_rev
  pub journal_within :
      (j : JournalRow) (va : Vault)
      → Elem j t.journal
      → Elem va t.vaults
      → va.id ≡ j.vault_id
      → j.rev ≤ va.head_rev

-- A revision that a vault has reached.
abbrev pub Reached : Str → ℕ → Tables → Type 0
Reached vault rev t = (va : Vault) → Elem va t.vaults → va.id ≡ vault → rev ≤ va.head_rev

abbrev pub Fresh : Str → ℕ → Tables → Type 0
Fresh vault rev t = Within t × Reached vault rev t

abbrev advance : Str → Vault → Vault
advance vault va = if va.id == vault then next_head va else va

-- The row that a vault had before the counter went up.
module _ (vault : Str) (t : Tables) where
  older :
      (va : Vault)
      → Elem va (advanced vault t).vaults
      → (old : Vault) × Elem old t.vaults
        × (va.id ≡ old.id)
        × (old.head_rev ≤ va.head_rev)
        × (va ≡ advance vault old)
  older va m = elim (update_where-Elem (λ (va : Vault). va.id == vault) next_head va t.vaults m) [
    | inl (old, i, hit, e) ↦ (
      old,
      i,
      ap (λ (v : Vault). v.id) e,
      subst⁻¹ (λ (v : Vault). old.head_rev ≤ v.head_rev) e (omega arith),
      rw hit e,
    )
    | inr (i, miss) ↦ (va, i, refl, omega arith, rw miss refl)
  ]

  advanced-Within : Within t → Within (advanced vault t)
  advanced-Within w = record {
    one_row = λ a b ma mb e.
        let (old_a, ia, ea, la, ca) = older a ma in
        let (old_b, ib, eb, lb, cb) = older b mb in
        ca ∙ ap (advance vault) (w.one_row old_a old_b ia ib (sym ea ∙ e ∙ eb)) ∙ sym cb;
    nodes_within = λ n va mn mv e.
        let (old, i, ei, le, c) = older va mv in
        omega (arith, w.nodes_within n old mn i (sym ei ∙ e), le);
    journal_within = λ j va mj mv e.
        let (old, i, ei, le, c) = older va mv in
        omega (arith, w.journal_within j old mj i (sym ei ∙ e), le);
  }

-- The revision handed out is the head that the vault then has.
pub Ends-take_rev : (vault : Str) → Ends Within (take_rev vault) (λ rev t. Fresh vault rev t)
unfolding next_rev
Ends-take_rev vault = record {
  end = λ t w.
      let s = advanced vault t in
      go t s (one_where (λ (va : Vault). va.id == vault) s.vaults) (advanced-Within vault t w)
        (λ va e. one_where-Elem (λ (va : Vault). va.id == vault) s.vaults va e);
}
  where
    go :
        (t s : Tables) (o : Option Vault)
        → Within s
        → ((va : Vault) → o ≡ some va → Elem va s.vaults × (va.id == vault ≡ true))
        → After (λ rev t. Fresh vault rev t) (rev_of t (with_head s (head_of o)))
    go t s none w found = tt
    go t s (some va) w found =
        let (m, h) = found va refl in
        (
          w,
          λ vb mb e.
              let same : va ≡ vb = w.one_row va vb m mb ((str_beq_iff va.id vault).0 h ∙ sym e) in
              subst (λ (v : Vault). va.head_rev ≤ v.head_rev) same (omega arith),
        )

module _ {vault : Str} {rev : ℕ} where
  -- An update of one row of the vault that gives it this revision.
  pub Ends-update_node :
      (id : Str) (f : Node → Node)
      → ((n : Node) → (f n).vault_id ≡ n.vault_id)
      → ((n : Node) → ((f n).rev ≡ rev) ⊎ ((f n).rev ≡ n.rev))
      → Keeps (Fresh vault rev) (modify (update_node vault id f))
  unfolding update_node
  Ends-update_node id f same_vault new_rev = record {
    end = λ t (w, reached). (
      record {
        one_row = w.one_row;
        journal_within = w.journal_within;
        nodes_within = λ n va mn mv e. elim (update_where-Elem (is_node vault id) f n t.nodes mn) [
          | inl (old, i, hit, eq) ↦
              let owned : va.id ≡ old.vault_id =
                e ∙ ap (λ (m : Node). m.vault_id) eq ∙ same_vault old in
              let here : old.vault_id ≡ vault = (str_beq_iff old.vault_id vault).0 (ground arith) in
              subst⁻¹ (λ (m : Node). m.rev ≤ va.head_rev) eq
                (elim (new_rev old) [
                  | inl r ↦ omega (arith, r, reached va mv (owned ∙ here))
                  | inr r ↦ omega (arith, r, w.nodes_within old va i mv owned)
                ])
          | inr (i, miss) ↦ w.nodes_within n va i mv e
        ];
      },
      reached,
    );
  }

  -- The rewriting of ancestors leaves the revisions.
  pub Ends-rewrite_subtree :
      (v id : Str) (chain : List Str)
      → Keeps (Fresh vault rev) (modify (rewrite_subtree_ancestry v id chain))
  unfolding rewrite_subtree_ancestry
  Ends-rewrite_subtree v id chain = record {
    end = λ t (w, reached). (
      record {
        one_row = w.one_row;
        journal_within = w.journal_within;
        nodes_within = λ n va mn mv e.
            elim (update_where-Elem (is_below v id) (rechained id chain) n t.nodes mn) [
              | inl (old, i, hit, eq) ↦
                  subst⁻¹ (λ (m : Node). m.rev ≤ va.head_rev) eq
                    (w.nodes_within old va i mv (e ∙ ap (λ (m : Node). m.vault_id) eq))
              | inr (i, miss) ↦ w.nodes_within n va i mv e
            ];
      },
      reached,
    );
  }

  pub Ends-add_node :
      (n : Node) → n.vault_id ≡ vault → n.rev ≡ rev → Keeps (Fresh vault rev) (add_node n)
  unfolding insert_node
  Ends-add_node n here new =
      Ends-attempt (taken (codes "nodes_pkey")) (insert_node n) (λ t s (w, reached) e.
        let added : s ≡ record t { nodes = t.nodes ++ (n ∷ []) } =
          not_failed (any (is_node n.vault_id n.id) t.nodes) _ s e in
        subst⁻¹ (Fresh vault rev) added (
          record {
            one_row = w.one_row;
            journal_within = w.journal_within;
            nodes_within = λ m va mm mv e. elim (Elem-append m t.nodes (n ∷ []) mm) [
              | inl i ↦ w.nodes_within m va i mv e
              | inr (inl eq) ↦
                  subst⁻¹ (λ (m : Node). m.rev ≤ va.head_rev) eq
                    (omega
                      (arith, new, reached va mv (e ∙ ap (λ (m : Node). m.vault_id) eq ∙ here)))
              | inr (inr none_left) ↦ absurd none_left
            ];
          },
          reached,
        ))

  pub Ends-journal :
      (now : ℕ) (node : Str) (op : JournalOp) (prev_parent : Option Str)
      → Keeps (Fresh vault rev) (journal now vault rev node op prev_parent)
  unfolding journal_entry
  Ends-journal now node op prev_parent =
      Ends-attempt (taken (codes "journal_pkey")) (journal_entry vault rev node op prev_parent now)
        (λ t s (w, reached) e.
          let row : JournalRow = record {
            vault_id = vault;
            rev = rev;
            node_id = node;
            prev_parent_id = prev_parent;
            op = op;
            node_rev = rev;
            at = now;
          } in
          let added : s ≡ record t { journal = t.journal ++ (row ∷ []) } =
            not_failed (any (λ (j : JournalRow). j.vault_id == vault && j.rev == rev) t.journal) _ s
              e in
          subst⁻¹ (Fresh vault rev) added (
            record {
              one_row = w.one_row;
              nodes_within = w.nodes_within;
              journal_within = λ j va mj mv e. elim (Elem-append j t.journal (row ∷ []) mj) [
                | inl i ↦ w.journal_within j va i mv e
                | inr (inl eq) ↦
                    subst⁻¹ (λ (m : JournalRow). m.rev ≤ va.head_rev) eq
                      (reached va mv (e ∙ ap (λ (m : JournalRow). m.vault_id) eq))
                | inr (inr none_left) ↦ absurd none_left
              ];
            },
            reached,
          ))

-- The property says nothing of the other tables.
pub Within-add_version : (v : Version) → Keeps Within (add_version v)
unfolding record_version
Within-add_version v = Ends-attempt (taken (codes "versions_pkey")) (record_version v) (λ t s w e.
    subst⁻¹ Within (not_failed (any _ t.versions) _ s e) (record {
      one_row = w.one_row;
      nodes_within = w.nodes_within;
      journal_within = w.journal_within;
    }))

pub Within-claim_blob : (user sha256 : Str) → Keeps Within (modify (claim_blob user sha256))
unfolding claim_blob
Within-claim_blob user sha256 = record {
  end = λ t w. record {
    one_row = w.one_row;
    nodes_within = w.nodes_within;
    journal_within = w.journal_within;
  };
}

pub Within-bind_blob : (user sha256 : Str) → Keeps Within (modify (bind_blob user sha256))
unfolding bind_blob
Within-bind_blob user sha256 = record {
  end = λ t w. record {
    one_row = w.one_row;
    nodes_within = w.nodes_within;
    journal_within = w.journal_within;
  };
}
