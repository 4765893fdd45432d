-- ===== src/Server/History/Heads.antt =====
-- The restoring of server/src/history/service.ts keeps revisions within the head of their vault, as the
-- writes of server/src/nodes/service.ts do.
use obsidian_syncserver.Prelude.{
  ℕ, refl, inl, Option, none, some, List, [], ◌∷◌, Str, nat_eq, str_eq,
}
use obsidian_syncserver.Server.Store.{Node, Version, put, Tables, one_where}
use obsidian_syncserver.Server.Refusal.{DbError, not_found, no_such_version}
use obsidian_syncserver.Server.Quota.{owner_and_frozen}
use obsidian_syncserver.Server.Tx.{tx_guarded}
use obsidian_syncserver.Server.Tx.Rules.{
  Keeps, Ends-bind, Ends-then, Keeps-pure, Keeps-read, Keeps-row, Keeps-when, tx_guarded-Keeps,
}
use obsidian_syncserver.Server.Replica.{is_node}
use obsidian_syncserver.Server.Replica.Heads.{
  Within, Ends-take_rev, Ends-update_node, Ends-journal, Within-add_version, Within-claim_blob,
}
use obsidian_syncserver.Server.Propagate.{with_deletion, version_row}
use obsidian_syncserver.Server.Propagate.FanOut.{written, undeleted}
use obsidian_syncserver.Server.Propagate.Heads.{Within-fan_out}
use obsidian_syncserver.Server.Nodes.{
  event_at, is_file, CreateInput, PutInput, MoveInput, create_node, put_content, delete_node,
  move_node,
}
use obsidian_syncserver.Server.Nodes.Heads.{
  Keeps-writable, Within-create_node, Within-put_content, Within-delete_node, Within-move_node,
}
use obsidian_syncserver.Server.History.{
  blocking_sibling, deleted_ancestors, refuse_blocked, refuse_any_blocked, with_version, version_at,
  restored_item, write_restored, lift_and_write, lift_all, restore_content, restore_node,
}

module _ {P : Tables → Type 0} where
  pub Keeps-refuse_blocked : (blocked : Option Str) → Keeps P (refuse_blocked blocked)
  Keeps-refuse_blocked none = Keeps-pure tt
  Keeps-refuse_blocked (some id) = record { end = λ t p. tt }

  pub Keeps-refuse_any :
      (vault : Str) (ancestors : List Node) → Keeps P (refuse_any_blocked vault ancestors)
  unfolding refuse_any_blocked
  Keeps-refuse_any vault [] = Keeps-pure tt
  Keeps-refuse_any vault (a ∷ ancestors) =
      Keeps-read (blocking_sibling vault a) (λ blocked.
        Ends-bind (Keeps-refuse_blocked blocked) (λ u. Keeps-refuse_any vault ancestors))

module _ (new_id : Tables → Str) (iso : ℕ → Str) (now : ℕ) (vault : Str) where
  Within-lift_all : (ancestors : List Node) → Keeps Within (lift_all new_id iso now vault ancestors)
  unfolding lift_all
  Within-lift_all [] = Keeps-pure []
  Within-lift_all (a ∷ ancestors) = Ends-bind (Ends-take_rev vault) (λ rev.
      Ends-bind (Ends-update_node a.id (with_deletion none rev) (λ n. refl) (λ n. inl refl)) (λ u.
        Ends-bind (Ends-then (λ t p. p.0) (Ends-journal now a.id put none)) (λ u.
          Ends-bind (Within-fan_out new_id now (event_at vault a undeleted))
            (λ u. Ends-bind (Within-lift_all ancestors) (λ lifted. Keeps-pure (a.id ∷ lifted))))))

  Within-restore_content :
      (n : Node) (v : Version) (user : Str) (rev : ℕ)
      → Keeps Within (restore_content new_id iso now vault n v user rev)
  unfolding restore_content
  Within-restore_content n v user rev =
      Ends-bind (Within-add_version (version_row now vault n.id rev v.sha256 v.size user)) (λ u.
        Ends-bind (Within-claim_blob user v.sha256) (λ u.
          Within-fan_out new_id now (event_at vault n (written (restored_item v (iso now) user)))))

  Within-write_restored :
      (node : Str) (n : Node) (v : Version) (user : Str) (lifted : List Str)
      → Keeps Within (write_restored new_id iso now vault node n v user lifted)
  unfolding write_restored
  Within-write_restored node n v user lifted = Ends-bind (Ends-take_rev vault) (λ rev.
      Ends-bind
        (Ends-update_node node (with_version v (iso now) rev n.type) (λ n. refl) (λ n. inl refl))
        (λ u. Ends-bind (Ends-then (λ t p. p.0) (Ends-journal now node put none)) (λ u.
          Ends-bind (Within-fan_out new_id now (event_at vault n undeleted)) (λ u.
            Ends-bind (Keeps-when (is_file n.type) _ (Within-restore_content n v user rev))
              (λ u. Keeps-pure (rev, lifted))))))

  Within-lift_and_write :
      (node : Str) (n : Node) (v : Version) (user : Str) (ancestors : List Node)
      → Keeps Within (lift_and_write new_id iso now vault node n v user ancestors)
  unfolding lift_and_write
  Within-lift_and_write node n v user ancestors = Ends-bind (Keeps-refuse_any vault ancestors) (λ u.
      Keeps-read (blocking_sibling vault n) (λ blocked.
        Ends-bind (Keeps-refuse_blocked blocked) (λ u.
          Ends-bind (Within-lift_all ancestors)
            (λ lifted. Within-write_restored node n v user lifted))))

  pub Within-restore_node :
      (node : Str) (version_rev : ℕ)
      → Keeps Within (restore_node new_id iso now vault node version_rev)
  unfolding restore_node
  Within-restore_node node version_rev =
      Keeps-read (λ t. owner_and_frozen t vault)
        (λ access. Ends-bind (Keeps-writable access) (λ user.
          Keeps-read (λ t. one_where (is_node vault node) t.nodes)
            (λ row. Ends-bind (Keeps-row row not_found) (λ n.
              Keeps-read (version_at vault node version_rev) (λ version.
                Ends-bind (Keeps-row version no_such_version) (λ v.
                  Keeps-read (deleted_ancestors vault n)
                    (λ ancestors. Within-lift_and_write node n v user ancestors)))))))

-- Where every vault has one row, and no node and no journal row is beyond the head of its vault, this
-- is so after each of the four writes of a node and after the restoring of a version, with its fan-out
-- into the other copies, committed or refused.
pub writes-Within :
    (new_id random_uuid : Tables → Str) (iso : ℕ → Str) (now : ℕ) (schema : Tables → Option DbError)
    (t : Tables) (creation : CreateInput) (content : PutInput) (relocation : MoveInput)
    (vault node : Str) (rev : ℕ)
    → Within t
    → Within (tx_guarded schema (create_node new_id random_uuid now creation) t).1
      × Within (tx_guarded schema (put_content new_id random_uuid now content) t).1
      × Within (tx_guarded schema (delete_node new_id random_uuid now vault node rev) t).1
      × Within (tx_guarded schema (move_node new_id random_uuid now relocation) t).1
      × Within (tx_guarded schema (restore_node new_id iso now vault node rev) t).1
writes-Within new_id random_uuid iso now schema t creation content relocation vault node rev w = (
  tx_guarded-Keeps Within schema _ t (Within-create_node new_id random_uuid now creation) w,
  tx_guarded-Keeps Within schema _ t (Within-put_content new_id random_uuid now content) w,
  tx_guarded-Keeps Within schema _ t (Within-delete_node new_id random_uuid now vault node rev) w,
  tx_guarded-Keeps Within schema _ t (Within-move_node new_id random_uuid now relocation) w,
  tx_guarded-Keeps Within schema _ t (Within-restore_node new_id iso now vault node rev) w,
)
