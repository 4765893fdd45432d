-- ===== src/Server/Nodes/Heads.antt =====
-- Every write of server/src/nodes/service.ts keeps revisions within the head of their vault.
use obsidian_syncserver.Prelude.{
  ℕ, refl, inl, not, Option, none, some, [], ◌∷◌, ◌++◌, Str, ◌==◌, str_eq, nat_eq, option_eq,
}
use obsidian_syncserver.Server.Store.{put, del, move, Tables}
use obsidian_syncserver.Server.Refusal.{
  not_found, base_mismatch, rev_mismatch, share_boundary, folder_not_empty,
}
use obsidian_syncserver.Server.Material.{Material, write_material}
use obsidian_syncserver.Server.Quota
use obsidian_syncserver.Server.Quota.{OwnerAccess, owner_and_frozen}
use obsidian_syncserver.Server.Tx.{modify}
use obsidian_syncserver.Server.Tx.Rules.{
  Keeps, Ends-bind, Ends-then, Keeps-pure, Keeps-read, Keeps-row, Keeps-guard,
}
use obsidian_syncserver.Server.Replica.{moved_node}
use obsidian_syncserver.Server.Replica.Heads.{
  Within, Ends-take_rev, Ends-update_node, Ends-rewrite_subtree, Ends-add_node, Ends-journal,
  Within-add_version, Within-bind_blob,
}
use obsidian_syncserver.Server.Propagate.{with_content, with_deletion, version_row}
use obsidian_syncserver.Server.Propagate.FanOut.{written, deleted, moved}
use obsidian_syncserver.Server.Propagate.Heads.{Within-fan_out}
use obsidian_syncserver.Server.Nodes.{
  CreateInput, PutInput, MoveInput, writable, reachable, live_node, item_id_for, new_node,
  hold_content, created_event, is_file, put_item, parent_share, holds_live, create_node,
  put_content, event_at, delete_node, move_node,
}

Within-write_material : (m : Material) → Keeps Within (modify (write_material m))
unfolding write_material
Within-write_material m = record {
  end = λ t w. record {
    one_row = w.one_row;
    nodes_within = w.nodes_within;
    journal_within = w.journal_within;
  };
}

module _ {P : Tables → Type 0} where
  pub Keeps-writable : (access : OwnerAccess) → Keeps P (writable access)
  Keeps-writable Quota.not_found = record { end = λ t p. tt }
  Keeps-writable (Quota.frozen user) = record { end = λ t p. tt }
  Keeps-writable (Quota.ok user) = Keeps-pure user

  pub Keeps-reachable : (access : OwnerAccess) → Keeps P (reachable access)
  Keeps-reachable Quota.not_found = record { end = λ t p. tt }
  Keeps-reachable (Quota.frozen user) = Keeps-pure user
  Keeps-reachable (Quota.ok user) = Keeps-pure user

Within-hold_content :
    (now : ℕ) (input : CreateInput) (owner id : Str) (rev : ℕ) (sha256 : Option Str)
    (size : Option ℕ)
    → Keeps Within (hold_content now input owner id rev sha256 size)
Within-hold_content now input owner id rev none size = Keeps-pure tt
Within-hold_content now input owner id rev (some []) size = Keeps-pure tt
Within-hold_content now input owner id rev (some (c ∷ s)) none = record { end = λ t p. tt }
Within-hold_content now input owner id rev (some (c ∷ s)) (some size) =
    Ends-bind (Within-add_version (version_row now input.vault_id id rev (c ∷ s) size owner))
      (λ u. Within-bind_blob owner (c ∷ s))

module _ (new_id random_uuid : Tables → Str) (now : ℕ) where
  pub Within-create_node :
      (input : CreateInput) → Keeps Within (create_node new_id random_uuid now input)
  unfolding create_node
  Within-create_node input =
      Keeps-read (λ t. owner_and_frozen t input.vault_id)
        (λ access. Ends-bind (Keeps-writable access) (λ owner.
          Keeps-read (live_node input.vault_id input.parent_id) (λ parent.
            Ends-bind (Keeps-row parent not_found) (λ into.
              Keeps-read (item_id_for random_uuid into.share_id) (λ item.
                Ends-bind (Within-write_material input.material) (λ u.
                  Ends-bind (Ends-take_rev input.vault_id) (λ rev. Keeps-read new_id (λ id.
                    Ends-bind (Ends-add_node (new_node input into item rev id) refl refl) (λ u.
                      Ends-bind (Ends-then (λ t p. p.0) (Ends-journal now id put none)) (λ u.
                        Ends-bind
                          (Within-hold_content now input owner id rev input.sha256 input.size)
                          (λ u.
                            Ends-bind
                              (Within-fan_out new_id now (created_event input into item owner))
                              (λ u. Keeps-pure (id, rev)))))))))))))

  pub Within-put_content :
      (input : PutInput) → Keeps Within (put_content new_id random_uuid now input)
  unfolding put_content
  Within-put_content input =
      Keeps-read (λ t. owner_and_frozen t input.vault_id)
        (λ access. Ends-bind (Keeps-writable access) (λ owner.
          Keeps-read (live_node input.vault_id input.node_id) (λ cur.
            Ends-bind (Keeps-row cur not_found) (λ row.
              Ends-bind (Keeps-guard (not (is_file row.type)) not_found) (λ u.
                Ends-bind
                  (Keeps-guard (not (row.sha256 == input.base_sha256))
                    (base_mismatch row.sha256 row.rev))
                  (λ u. Ends-bind (Within-write_material input.material) (λ u.
                    Ends-bind (Ends-take_rev input.vault_id) (λ rev.
                      Ends-bind
                        (Ends-update_node input.node_id (with_content (put_item input owner) rev)
                          (λ n. refl) (λ n. inl refl))
                        (λ u.
                          Ends-bind
                            (Ends-then (λ t p. p.0) (Ends-journal now input.node_id put none))
                            (λ u.
                              Ends-bind
                                (Within-add_version (
                                  version_row now input.vault_id input.node_id rev input.sha256
                                    input.size owner))
                                (λ u. Ends-bind (Within-bind_blob owner input.sha256) (λ u.
                                  Ends-bind
                                    (Within-fan_out new_id now (
                                      event_at input.vault_id row (written (put_item input owner))))
                                    (λ u. Keeps-pure rev)))))))))))))

  pub Within-delete_node :
      (vault node : Str) (if_match_rev : ℕ)
      → Keeps Within (delete_node new_id random_uuid now vault node if_match_rev)
  unfolding delete_node
  Within-delete_node vault node if_match_rev =
      Keeps-read (λ t. owner_and_frozen t vault)
        (λ access. Ends-bind (Keeps-reachable access) (λ owner.
          Keeps-read (live_node vault node) (λ cur. Ends-bind (Keeps-row cur not_found) (λ row.
            Ends-bind (Keeps-guard (not (row.rev == if_match_rev)) (rev_mismatch row.rev)) (λ u.
              Keeps-read (holds_live vault node) (λ held.
                Ends-bind (Keeps-guard held folder_not_empty) (λ u.
                  Ends-bind (Ends-take_rev vault) (λ rev.
                    Ends-bind
                      (Ends-update_node node (with_deletion (some now) rev) (λ n. refl)
                        (λ n. inl refl))
                      (λ u.
                        Ends-bind (Ends-then (λ t p. p.0) (Ends-journal now node del none)) (λ u.
                          Ends-bind (Within-fan_out new_id now (event_at vault row deleted))
                            (λ u. Keeps-pure rev)))))))))))

  pub Within-move_node : (input : MoveInput) → Keeps Within (move_node new_id random_uuid now input)
  unfolding move_node
  Within-move_node input =
      Keeps-read (λ t. owner_and_frozen t input.vault_id)
        (λ access. Ends-bind (Keeps-reachable access) (λ owner.
          Keeps-read (live_node input.vault_id input.node_id) (λ cur.
            Ends-bind (Keeps-row cur not_found) (λ row.
              Ends-bind (Keeps-guard (not (row.rev == input.if_match_rev)) (rev_mismatch row.rev))
                (λ u. Keeps-read (live_node input.vault_id input.parent_id) (λ parent.
                  Ends-bind (Keeps-row parent not_found) (λ dest.
                    Keeps-read (λ t. parent_share t row)
                      (λ from.
                        Ends-bind (Keeps-guard (not (from == dest.share_id)) share_boundary) (λ u.
                          Ends-bind (Ends-take_rev input.vault_id) (λ rev.
                            let chain = dest.ancestry ++ (input.parent_id ∷ []) in
                            Ends-bind
                              (Ends-update_node input.node_id
                                (moved_node input.parent_id input.name rev chain) (λ n. refl)
                                (λ n. inl refl))
                              (λ u.
                                Ends-bind (Ends-rewrite_subtree input.vault_id input.node_id chain)
                                  (λ u.
                                    Ends-bind
                                      (Ends-then (λ t p. p.0)
                                        (Ends-journal now input.node_id move row.parent_id))
                                      (λ u.
                                        Ends-bind
                                          (Within-fan_out new_id now (
                                            event_at input.vault_id row
                                              (moved dest.share_item_id input.name)))
                                          (λ u. Keeps-pure rev))))))))))))))
