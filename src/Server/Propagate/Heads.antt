-- ===== src/Server/Propagate/Heads.antt =====
-- The fan-out of server/src/shares/propagate.ts keeps every revision within the head of its vault.
use obsidian_syncserver.Prelude.{
  ℕ, refl, inl, inr, Option, none, some, List, [], ◌∷◌, Str, Bool-cases, str_eq,
}
use obsidian_syncserver.Server.Store.{SealedName, JournalOp, put, del, move, Tables}
use obsidian_syncserver.Server.Holdings.{claim_blob}
use obsidian_syncserver.Server.Quota.{freeze_if_over_quota, over, usage_of}
use obsidian_syncserver.Server.Tx.{modify, ◌>>=◌, ◌>>◌}
use obsidian_syncserver.Server.Tx.Rules.{
  After, Keeps, Ends-bind, Ends-weaken, Ends-then, Keeps-pure, Keeps-gets,
}
use obsidian_syncserver.Server.Replica.{
  Counterpart, ReplicaItem, counterpart_of, create_counterpart, move_counterpart, replica_node,
  take_rev, journal, update_node, chain_below, moved_node,
}
use obsidian_syncserver.Server.Replica.Heads.{
  Within, Ends-take_rev, Ends-update_node, Ends-rewrite_subtree, Ends-add_node, Ends-journal,
  Within-add_version, Within-claim_blob,
}
use obsidian_syncserver.Server.Propagate.{
  Target, PutItem, CreateItem, with_content, with_deletion, version_row, freeze_over, put_into,
  put_if_held, propagate_put, replica_item, claim_content, create_into, create_if_held,
  propagate_create, delete_in, delete_if_held, propagate_delete, move_if_held, propagate_move,
  undelete_in, undelete_if_trashed, propagate_undelete,
}
use obsidian_syncserver.Server.Propagate.FanOut.{
  FanoutKind, created, written, deleted, undeleted, moved, FanoutEvent, present, reach, parent_item,
  fan_out_in, fan_out,
}

Within-freeze_over : (now : ℕ) (user : Str) → Keeps Within (modify (freeze_over now user))
unfolding freeze_if_over_quota
Within-freeze_over now user = record {
  end = λ t w. elim (Bool-cases (over (usage_of t user))) [
    | inl h ↦
        rw (h, After, modify, freeze_over, freeze_if_over_quota)
          (record {
            one_row = w.one_row;
            nodes_within = w.nodes_within;
            journal_within = w.journal_within;
          })
    | inr h ↦ rw (h, After, modify, freeze_over, freeze_if_over_quota) w
  ];
}

-- The claim and the freeze that follow a version.
Within-claimed :
    (now : ℕ) (user sha256 : Str)
    → Keeps Within (modify (claim_blob user sha256) >> modify (freeze_over now user))
Within-claimed now user sha256 =
    Ends-bind (Within-claim_blob user sha256) (λ u. Within-freeze_over now user)

Within-put_into :
    (now : ℕ) (item : PutItem) (target : Target) (node : Counterpart)
    → Keeps Within (put_into now item target node)
unfolding put_into
Within-put_into now item target node = Ends-bind (Ends-take_rev target.vault_id) (λ rev.
    Ends-bind (Ends-update_node node.id (with_content item rev) (λ n. refl) (λ n. inl refl)) (λ u.
      Ends-bind (Ends-journal now node.id put none) (λ u.
        Ends-weaken (λ t p. p.0)
          (Ends-bind
            (Within-add_version
              (version_row now target.vault_id node.id rev item.sha256 item.size item.author_id))
            (λ u. Within-claimed now target.user_id item.sha256)))))

Within-when_held :
    (now : ℕ) (item : PutItem) (target : Target) (held : Option Counterpart)
    → Keeps Within (put_if_held now item target held)
Within-when_held now item target none = Keeps-pure tt
Within-when_held now item target (some node) = Within-put_into now item target node

Within-propagate_put :
    (now : ℕ) (item : PutItem) (share_item : Str) (targets : List Target)
    → Keeps Within (propagate_put now item share_item targets)
unfolding propagate_put
Within-propagate_put now item share_item [] = Keeps-pure tt
Within-propagate_put now item share_item (target ∷ targets) = Ends-bind Keeps-gets (λ held.
    Ends-weaken (λ t p. p.1)
      (Ends-bind (Within-when_held now item target held)
        (λ u. Within-propagate_put now item share_item targets)))

-- A deletion and its undoing differ in the date and in the journal's word.
Within-deletion :
    (now : ℕ) (target : Target) (node : Counterpart) (date : Option ℕ) (op : JournalOp)
    → Keeps Within (
        take_rev target.vault_id >>= λ rev.
        modify (update_node target.vault_id node.id (with_deletion date rev))
        >> journal now target.vault_id rev node.id op none)
Within-deletion now target node date op = Ends-bind (Ends-take_rev target.vault_id) (λ rev.
    Ends-bind (Ends-update_node node.id (with_deletion date rev) (λ n. refl) (λ n. inl refl))
      (λ u. Ends-then (λ t p. p.0) (Ends-journal now node.id op none)))

Within-delete_held :
    (now : ℕ) (target : Target) (held : Option Counterpart)
    → Keeps Within (delete_if_held now target held)
unfolding delete_in
Within-delete_held now target none = Keeps-pure tt
Within-delete_held now target (some node) = Within-deletion now target node (some now) del

Within-propagate_delete :
    (now : ℕ) (share_item : Str) (targets : List Target)
    → Keeps Within (propagate_delete now share_item targets)
unfolding propagate_delete
Within-propagate_delete now share_item [] = Keeps-pure tt
Within-propagate_delete now share_item (target ∷ targets) = Ends-bind Keeps-gets (λ held.
    Ends-weaken (λ t p. p.1)
      (Ends-bind (Within-delete_held now target held)
        (λ u. Within-propagate_delete now share_item targets)))

Within-undelete_trashed :
    (now : ℕ) (target : Target) (held : Option Counterpart)
    → Keeps Within (undelete_if_trashed now target held)
unfolding undelete_in
Within-undelete_trashed now target none = Keeps-pure tt
Within-undelete_trashed now target (some node) = Within-deletion now target node none put

Within-propagate_undelete :
    (now : ℕ) (share_item : Str) (targets : List Target)
    → Keeps Within (propagate_undelete now share_item targets)
unfolding propagate_undelete
Within-propagate_undelete now share_item [] = Keeps-pure tt
Within-propagate_undelete now share_item (target ∷ targets) = Ends-bind Keeps-gets (λ held.
    Ends-weaken (λ t p. p.1)
      (Ends-bind (Within-undelete_trashed now target held)
        (λ u. Within-propagate_undelete now share_item targets)))

Within-move_counterpart :
    (now : ℕ) (vault node : Str) (parent : Counterpart) (name : SealedName)
    → Keeps Within (move_counterpart now vault node parent name)
unfolding move_counterpart
Within-move_counterpart now vault node parent name = Ends-bind (Ends-take_rev vault) (λ rev.
    Ends-bind Keeps-gets (λ prev.
      Ends-weaken (λ t p. p.1)
        (Ends-bind
          (Ends-update_node node (moved_node parent.id name rev (chain_below parent)) (λ n. refl)
            (λ n. inl refl))
          (λ u. Ends-bind (Ends-rewrite_subtree vault node (chain_below parent)) (λ u.
            Ends-bind (Ends-journal now node move prev)
              (λ u. Ends-weaken (λ t p. p.0) (Keeps-pure rev)))))))

Within-move_held :
    (now : ℕ) (name : SealedName) (target : Target) (node parent : Option Counterpart)
    → Keeps Within (move_if_held now name target node parent)
Within-move_held now name target none parent = Keeps-pure tt
Within-move_held now name target (some node) none = Keeps-pure tt
Within-move_held now name target (some node) (some parent) =
    Ends-bind (Within-move_counterpart now target.vault_id node.id parent name)
      (λ rev. Keeps-pure tt)

Within-propagate_move :
    (now : ℕ) (name : SealedName) (share_item parent_item : Str) (targets : List Target)
    → Keeps Within (propagate_move now name share_item parent_item targets)
unfolding propagate_move
Within-propagate_move now name share_item parent_item [] = Keeps-pure tt
Within-propagate_move now name share_item parent_item (target ∷ targets) =
    Ends-bind (Keeps-gets {f = counterpart_of target.vault_id share_item}) (λ node.
      Ends-weaken (λ t p. p.1)
        (Ends-bind (Keeps-gets {f = counterpart_of target.vault_id parent_item}) (λ parent.
          Ends-weaken (λ t p. p.1)
            (Ends-bind (Within-move_held now name target node parent)
              (λ u. Within-propagate_move now name share_item parent_item targets)))))

Within-claim_content :
    (now : ℕ) (item : CreateItem) (target : Target) (node : Str) (rev : ℕ) (sha256 : Option Str)
    (size : Option ℕ)
    → Keeps Within (claim_content now item target node rev sha256 size)
Within-claim_content now item target node rev none size = Keeps-pure tt
Within-claim_content now item target node rev (some sha256) none = Keeps-pure tt
Within-claim_content now item target node rev (some sha256) (some size) =
    Ends-bind
      (Within-add_version (version_row now target.vault_id node rev sha256 size item.author_id))
      (λ u. Within-claimed now target.user_id sha256)

module _ (new_id : Tables → Str) (now : ℕ) where
  Within-create_counterpart :
      (vault share : Str) (parent : Counterpart) (item : ReplicaItem)
      → Keeps Within (create_counterpart new_id now vault share parent item)
  unfolding create_counterpart
  Within-create_counterpart vault share parent item = Ends-bind (Ends-take_rev vault) (λ rev.
      Ends-bind Keeps-gets (λ id.
        Ends-weaken (λ t p. p.1)
          (Ends-bind (Ends-add_node (replica_node vault share parent item rev id) refl refl) (λ u.
            Ends-bind (Ends-journal now id put none) (λ u.
              Ends-weaken (λ t p. p.0)
                (Keeps-pure (record { id = id; ancestry = chain_below parent }, rev)))))))

  Within-create_held :
      (item : CreateItem) (share share_item : Str) (target : Target) (held : Option Counterpart)
      → Keeps Within (create_if_held new_id now item share share_item target held)
  unfolding create_into
  Within-create_held item share share_item target none = Keeps-pure tt
  Within-create_held item share share_item target (some parent) =
      Ends-bind
        (Within-create_counterpart target.vault_id share parent (replica_item share_item item))
        (λ made. Within-claim_content now item target made.0.id made.1 item.sha256 item.size)

  Within-propagate_create :
      (item : CreateItem) (share share_item parent_item : Str) (targets : List Target)
      → Keeps Within (propagate_create new_id now item share share_item parent_item targets)
  unfolding propagate_create
  Within-propagate_create item share share_item parent_item [] = Keeps-pure tt
  Within-propagate_create item share share_item parent_item (target ∷ targets) =
      Ends-bind Keeps-gets (λ parent.
        Ends-weaken (λ t p. p.1)
          (Ends-bind (Within-create_held item share share_item target parent)
            (λ u. Within-propagate_create item share share_item parent_item targets)))

  Within-reach :
      (share item : Str) (kind : FanoutKind) (parent : Option Str) (targets : List Target)
      → Keeps Within (reach new_id now share item kind parent targets)
  Within-reach share item (created p made) none targets = Keeps-pure tt
  Within-reach share item (created p made) (some parent) targets =
      Within-propagate_create made share item parent targets
  Within-reach share item (written content) parent targets =
      Within-propagate_put now content item targets
  Within-reach share item deleted parent targets = Within-propagate_delete now item targets
  Within-reach share item undeleted parent targets = Within-propagate_undelete now item targets
  Within-reach share item (moved p name) none targets = Keeps-pure tt
  Within-reach share item (moved p name) (some parent) targets =
      Within-propagate_move now name item parent targets

  -- No fan-out takes a node or a journal row beyond the head of its vault.
  pub Within-fan_out : (e : FanoutEvent) → Keeps Within (fan_out new_id now e)
  unfolding fan_out
  Within-fan_out e = go (present e.share_id) (present e.share_item_id)
    where
      go :
          (share item : Option Str)
          → Keeps Within (fan_out_in new_id now e.vault_id e.kind share item)
      go none item = Keeps-pure tt
      go (some share) none = Keeps-pure tt
      go (some share) (some item) = Ends-bind Keeps-gets (λ targets.
          Ends-weaken (λ t p. p.1)
            (Within-reach share item e.kind (parent_item new_id now e.kind) targets))
