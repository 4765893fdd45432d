-- ===== src/Server/Propagate.antt =====
-- server/src/shares/propagate.ts and membership.ts: a write inside a shared folder reaches the copy
-- of every other live participant whose account is not frozen.
pub mod Delivery
pub mod FanOut
pub mod OnNodes
pub mod Heads
use obsidian_syncserver.Prelude.{
  ℕ, Bool, not, ◌&&◌, Option, none, some, List, [], ◌∷◌, Str, ◌==◌, any, filter, str_eq, sort_by,
  text_leb, if◌then◌else◌, false, map,
}
use mathlib.Core.Option
use obsidian_syncserver.Server.Store.{
  User, NodeType, SealedName, Node, put, del, Version, Member, Tables, is_null, equals, one_where,
}
use obsidian_syncserver.Server.Holdings.{claim_blob}
use obsidian_syncserver.Server.Quota.{freeze_if_over_quota, has_frozen, user_at}
use obsidian_syncserver.Server.Tx.{Tx, pure, gets, modify, ◌>>=◌, ◌>>◌}
use obsidian_syncserver.Server.Replica.{
  take_rev, journal, add_version, update_node, Counterpart, counterpart, counterpart_of,
  ReplicaItem, create_counterpart, move_counterpart,
}

-- `LIVE`
abbrev pub is_live : Member → Bool
is_live m = not (is_null m.joined_at) && is_null m.finalization_started_at && is_null m.left_at

abbrev pub is_unfrozen : Option User → Bool
is_unfrozen none = false
is_unfrozen (some u) = is_null u.frozen_at

-- `LIVE_UNFROZEN` with its join of `users`.
abbrev pub is_live_unfrozen : Tables → Member → Bool
is_live_unfrozen t m = is_live m && is_unfrozen (user_at t m.user_id)

pub record Target : Type 0 where
  pub user_id : Str
  pub vault_id : Str

abbrev pub is_target : Tables → Str → Str → Member → Bool
is_target t share except m =
    m.share_id == share
    && is_live_unfrozen t m
    && not (is_null m.vault_id)
    && not (equals m.vault_id except)

abbrev pub vault_or_empty : Option Str → Str
vault_or_empty none = []
vault_or_empty (some vault) = vault

abbrev pub target_of : Member → Target
target_of m = record { user_id = m.user_id; vault_id = vault_or_empty m.vault_id }

abbrev pub by_user : Member → Member → Bool
by_user a b = text_leb a.user_id b.user_id

unfoldable pub fanout_targets : Str → Str → Tables → List Target
fanout_targets share except t =
    map target_of (sort_by by_user (filter (is_target t share except) t.share_members))

pub record PutItem : Type 0 where
  pub sha256 : Str
  pub size : ℕ
  pub mtime : Str
  pub author_id : Str

pub record CreateItem : Type 0 where
  pub type : NodeType
  pub name : SealedName
  pub sha256 : Option Str
  pub size : Option ℕ
  pub mtime : Str
  pub author_id : Str

abbrev pub with_content : PutItem → ℕ → Node → Node
with_content item rev n = record n {
  sha256 = some item.sha256;
  size = some item.size;
  mtime = item.mtime;
  rev = rev;
}

abbrev pub version_row : ℕ → Str → Str → ℕ → Str → ℕ → Str → Version
version_row now vault node rev sha256 size author = record {
  vault_id = vault;
  node_id = node;
  rev = rev;
  sha256 = sha256;
  size = size;
  author_id = author;
  at = now;
}

abbrev pub freeze_over : ℕ → Str → Tables → Tables
freeze_over now user t = (freeze_if_over_quota now user t).0

-- One round of each loop over the targets, for the replica's node.
unfoldable pub put_into : ℕ → PutItem → Target → Counterpart → Tx (Unit {0})
put_into now item target node = do
  rev ← take_rev target.vault_id
  modify (update_node target.vault_id node.id (with_content item rev))
  journal now target.vault_id rev node.id put none
  add_version (version_row now target.vault_id node.id rev item.sha256 item.size item.author_id)
  modify (claim_blob target.user_id item.sha256)
  modify (freeze_over now target.user_id)

abbrev pub put_if_held : ℕ → PutItem → Target → Option Counterpart → Tx (Unit {0})
put_if_held now item target none = pure tt
put_if_held now item target (some node) = put_into now item target node

unfoldable pub propagate_put : ℕ → PutItem → Str → List Target → Tx (Unit {0})
propagate_put now item share_item [] = pure tt
propagate_put now item share_item (target ∷ targets) = do
  node ← gets (counterpart_of target.vault_id share_item)
  put_if_held now item target node
  propagate_put now item share_item targets

abbrev pub replica_item : Str → CreateItem → ReplicaItem
replica_item share_item item = record {
  share_item_id = share_item;
  type = item.type;
  name = item.name;
  sha256 = item.sha256;
  size = item.size;
  mtime = item.mtime;
}

-- `item.sha256 !== null && item.size !== null`
abbrev pub claim_content : ℕ → CreateItem → Target → Str → ℕ → Option Str → Option ℕ → Tx (Unit {0})
claim_content now item target node rev none size = pure tt
claim_content now item target node rev (some sha256) none = pure tt
claim_content now item target node rev (some sha256) (some size) = do
  add_version (version_row now target.vault_id node rev sha256 size item.author_id)
  modify (claim_blob target.user_id sha256)
  modify (freeze_over now target.user_id)

module _ (new_id : Tables → Str) (now : ℕ) where
  unfoldable pub create_into : CreateItem → Str → Str → Target → Counterpart → Tx (Unit {0})
  create_into item share share_item target parent = do
    made ← create_counterpart new_id now target.vault_id share parent (replica_item share_item item)
    claim_content now item target made.0.id made.1 item.sha256 item.size

  abbrev pub create_if_held : CreateItem → Str → Str → Target → Option Counterpart → Tx (Unit {0})
  create_if_held item share share_item target none = pure tt
  create_if_held item share share_item target (some parent) =
      create_into item share share_item target parent

  unfoldable pub propagate_create : CreateItem → Str → Str → Str → List Target → Tx (Unit {0})
  propagate_create item share share_item parent_item [] = pure tt
  propagate_create item share share_item parent_item (target ∷ targets) = do
    parent ← gets (counterpart_of target.vault_id parent_item)
    create_if_held item share share_item target parent
    propagate_create item share share_item parent_item targets

abbrev pub with_deletion : Option ℕ → ℕ → Node → Node
with_deletion deleted_at rev n = record n { deleted_at = deleted_at; rev = rev }

unfoldable pub delete_in : ℕ → Target → Counterpart → Tx (Unit {0})
delete_in now target node = do
  rev ← take_rev target.vault_id
  modify (update_node target.vault_id node.id (with_deletion (some now) rev))
  journal now target.vault_id rev node.id del none

abbrev pub delete_if_held : ℕ → Target → Option Counterpart → Tx (Unit {0})
delete_if_held now target none = pure tt
delete_if_held now target (some node) = delete_in now target node

unfoldable pub propagate_delete : ℕ → Str → List Target → Tx (Unit {0})
propagate_delete now share_item [] = pure tt
propagate_delete now share_item (target ∷ targets) = do
  node ← gets (counterpart_of target.vault_id share_item)
  delete_if_held now target node
  propagate_delete now share_item targets

abbrev pub move_if_held :
    ℕ → SealedName → Target → Option Counterpart → Option Counterpart → Tx (Unit {0})
move_if_held now name target none parent = pure tt
move_if_held now name target (some node) none = pure tt
move_if_held now name target (some node) (some parent) =
    move_counterpart now target.vault_id node.id parent name >>= λ rev. pure tt

unfoldable pub propagate_move : ℕ → SealedName → Str → Str → List Target → Tx (Unit {0})
propagate_move now name share_item parent_item [] = pure tt
propagate_move now name share_item parent_item (target ∷ targets) = do
  node ← gets (counterpart_of target.vault_id share_item)
  parent ← gets (counterpart_of target.vault_id parent_item)
  move_if_held now name target node parent
  propagate_move now name share_item parent_item targets

unfoldable pub trashed_of : Str → Str → Tables → Option Counterpart
trashed_of vault item t = Option.map counterpart (
    one_where
      (λ (n : Node).
        n.vault_id == vault && equals n.share_item_id item && not (is_null n.deleted_at))
      t.nodes)

unfoldable pub undelete_in : ℕ → Target → Counterpart → Tx (Unit {0})
undelete_in now target node = do
  rev ← take_rev target.vault_id
  modify (update_node target.vault_id node.id (with_deletion none rev))
  journal now target.vault_id rev node.id put none

abbrev pub undelete_if_trashed : ℕ → Target → Option Counterpart → Tx (Unit {0})
undelete_if_trashed now target none = pure tt
undelete_if_trashed now target (some node) = undelete_in now target node

unfoldable pub propagate_undelete : ℕ → Str → List Target → Tx (Unit {0})
propagate_undelete now share_item [] = pure tt
propagate_undelete now share_item (target ∷ targets) = do
  node ← gets (trashed_of target.vault_id share_item)
  undelete_if_trashed now target node
  propagate_undelete now share_item targets
