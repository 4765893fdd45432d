-- ===== src/Server/History/Live.antt =====
-- What is out of the trash stays so through the fan-outs of a restore (server/src/shares/propagate.ts).
use obsidian_syncserver.Prelude.{
  ℕ, ◌≡◌, refl, sym, ap, ◌∙◌, inl, inr, Option, none, some, List, [], ◌∷◌, Elem, Str, str_eq,
  str_beq_iff, nat_eq, arith,
}
use obsidian_syncserver.Server.Store.{Node, put, Tables}
use obsidian_syncserver.Server.Holdings.Claims.{update_where-Elem}
use obsidian_syncserver.Server.Tx.{modify}
use obsidian_syncserver.Server.Tx.Rules.{Ends, Keeps, Ends-bind, Keeps-pure, Keeps-read}
use obsidian_syncserver.Server.Replica.{is_node, update_node, Counterpart, counterpart_of}
use obsidian_syncserver.Server.Propagate.{
  Target, PutItem, with_content, with_deletion, version_row, fanout_targets, put_into, put_if_held,
  propagate_put, undelete_in, undelete_if_trashed, propagate_undelete, trashed_of,
}
use obsidian_syncserver.Server.Propagate.OnNodes.{
  OnNodes-take_rev, OnNodes-journal, OnNodes-add_version, OnNodes-claim_blob, OnNodes-freeze_over,
}
use obsidian_syncserver.Server.Propagate.FanOut.{written, undeleted, present, fan_out_in, fan_out}
use obsidian_syncserver.Server.Nodes.{event_at}

-- The rows of this vault and id are not in the trash.
abbrev pub Live : Str → Str → List Node → Type 0
Live vault id nodes =
    (n : Node) → Elem n nodes → n.vault_id ≡ vault → n.id ≡ id → n.deleted_at ≡ none

module _ (vault id : Str) where
  pub Live-update :
      (v node : Str) (f : Node → Node)
      → ((n : Node) → (f n).vault_id ≡ n.vault_id)
      → ((n : Node) → (f n).id ≡ n.id)
      → ((n : Node) → n.deleted_at ≡ none → (f n).deleted_at ≡ none)
      → Keeps (λ t. Live vault id t.nodes) (modify (update_node v node f))
  unfolding update_node
  Live-update v node f fv fi fd = record {
    end = λ t live n m e1 e2. elim (update_where-Elem (is_node v node) f n t.nodes m) [
      | inl (old, i, hit, e) ↦
          ap (λ (r : Node). r.deleted_at) e
          ∙ fd old (
              live old i (sym (fv old) ∙ sym (ap (λ (r : Node). r.vault_id) e) ∙ e1)
                (sym (fi old) ∙ sym (ap (λ (r : Node). r.id) e) ∙ e2))
      | inr (i, miss) ↦ live n i e1 e2
    ];
  }

  pub Live-updated :
      {P : Tables → Type 0} (f : Node → Node)
      → ((n : Node) → (f n).deleted_at ≡ none)
      → Ends P (modify (update_node vault id f)) (λ u t. Live vault id t.nodes)
  unfolding update_node
  Live-updated f fd = record {
    end = λ t p n m e1 e2. elim (update_where-Elem (is_node vault id) f n t.nodes m) [
      | inl (old, i, hit, e) ↦ ap (λ (r : Node). r.deleted_at) e ∙ fd old
      | inr (i, miss) ↦
          absurd
            (ground (arith, miss, (str_beq_iff n.vault_id vault).1 e1, (str_beq_iff n.id id).1 e2))
    ];
  }

  abbrev Kept : List Node → Type 0
  Kept = Live vault id

  Live-put_held :
      (now : ℕ) (item : PutItem) (target : Target) (held : Option Counterpart)
      → Keeps (λ t. Kept t.nodes) (put_if_held now item target held)
  unfolding put_into
  Live-put_held now item target none = Keeps-pure tt
  Live-put_held now item target (some node) =
      Ends-bind (OnNodes-take_rev Kept target.vault_id) (λ rev.
        Ends-bind
          (Live-update target.vault_id node.id (with_content item rev) (λ n. refl) (λ n. refl)
            (λ n e. e))
          (λ u. Ends-bind (OnNodes-journal Kept now target.vault_id rev node.id put none) (λ u.
            Ends-bind
              (OnNodes-add_version Kept
                (version_row now target.vault_id node.id rev item.sha256 item.size item.author_id))
              (λ u.
                Ends-bind (OnNodes-claim_blob Kept target.user_id item.sha256)
                  (λ u. OnNodes-freeze_over Kept now target.user_id)))))

  Live-propagate_put :
      (now : ℕ) (item : PutItem) (share_item : Str) (targets : List Target)
      → Keeps (λ t. Kept t.nodes) (propagate_put now item share_item targets)
  unfolding propagate_put
  Live-propagate_put now item share_item [] = Keeps-pure tt
  Live-propagate_put now item share_item (target ∷ targets) =
      Keeps-read (counterpart_of target.vault_id share_item) (λ held.
        Ends-bind (Live-put_held now item target held)
          (λ u. Live-propagate_put now item share_item targets))

  Live-undelete_held :
      (now : ℕ) (target : Target) (held : Option Counterpart)
      → Keeps (λ t. Kept t.nodes) (undelete_if_trashed now target held)
  unfolding undelete_in
  Live-undelete_held now target none = Keeps-pure tt
  Live-undelete_held now target (some node) =
      Ends-bind (OnNodes-take_rev Kept target.vault_id) (λ rev.
        Ends-bind
          (Live-update target.vault_id node.id (with_deletion none rev) (λ n. refl) (λ n. refl)
            (λ n e. refl))
          (λ u. OnNodes-journal Kept now target.vault_id rev node.id put none))

  Live-propagate_undelete :
      (now : ℕ) (share_item : Str) (targets : List Target)
      → Keeps (λ t. Kept t.nodes) (propagate_undelete now share_item targets)
  unfolding propagate_undelete
  Live-propagate_undelete now share_item [] = Keeps-pure tt
  Live-propagate_undelete now share_item (target ∷ targets) =
      Keeps-read (trashed_of target.vault_id share_item) (λ held.
        Ends-bind (Live-undelete_held now target held)
          (λ u. Live-propagate_undelete now share_item targets))

  -- The fan-outs of a restore.
  module _ (new_id : Tables → Str) (now : ℕ) where
    pub Live-fan_undelete :
        (v : Str) (n : Node)
        → Keeps (λ t. Kept t.nodes) (fan_out new_id now (event_at v n undeleted))
    unfolding fan_out
    Live-fan_undelete v n = go (present n.share_id) (present n.share_item_id)
      where
        go :
            (share item : Option Str)
            → Keeps (λ t. Kept t.nodes) (fan_out_in new_id now v undeleted share item)
        go none item = Keeps-pure tt
        go (some share) none = Keeps-pure tt
        go (some share) (some item) =
            Keeps-read (fanout_targets share v)
              (λ targets. Live-propagate_undelete now item targets)

    pub Live-fan_put :
        (v : Str) (n : Node) (content : PutItem)
        → Keeps (λ t. Kept t.nodes) (fan_out new_id now (event_at v n (written content)))
    unfolding fan_out
    Live-fan_put v n content = go (present n.share_id) (present n.share_item_id)
      where
        go :
            (share item : Option Str)
            → Keeps (λ t. Kept t.nodes) (fan_out_in new_id now v (written content) share item)
        go none item = Keeps-pure tt
        go (some share) none = Keeps-pure tt
        go (some share) (some item) =
            Keeps-read (fanout_targets share v)
              (λ targets. Live-propagate_put now content item targets)
