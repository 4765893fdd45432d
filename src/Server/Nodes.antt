-- ===== src/Server/Nodes.antt =====
-- server/src/nodes/service.ts: the writes of a vault's nodes, each the
-- callback of one transaction. `random_uuid` is the item id that the server draws and `new_id` the id
-- that the database generates.
pub mod Heads
pub mod Shared
use obsidian_syncserver.Prelude.{
  ℕ, Bool, true, false, not, ◌&&◌, Option, none, some, [], ◌∷◌, ◌++◌, Str, ◌==◌, any, truthy,
  str_eq, nat_eq, option_eq, if◌then◌else◌,
}
use obsidian_syncserver.Server.Store.{
  NodeType, file, folder, SealedName, Node, put, del, move, Tables, is_null, equals, one_where,
}
use obsidian_syncserver.Server.Refusal.{
  not_found, frozen, base_mismatch, rev_mismatch, share_boundary, folder_not_empty,
}
use obsidian_syncserver.Server.Holdings.{bind_blob}
use obsidian_syncserver.Server.Quota
use obsidian_syncserver.Server.Quota.{OwnerAccess, owner_and_frozen}
use obsidian_syncserver.Server.Ancestry.{rewrite_subtree_ancestry}
use obsidian_syncserver.Server.Tx.{
  Tx, program_error, pure, refuse, throw, gets, or_refuse, refuse_if, modify, ◌>>=◌, ◌>>◌,
}
use obsidian_syncserver.Server.Replica.{
  take_rev, journal, add_version, add_node, is_node, update_node, moved_node,
}
use obsidian_syncserver.Server.Material.{Material, write_material}
use obsidian_syncserver.Server.Propagate.{PutItem, with_content, with_deletion, version_row}
use obsidian_syncserver.Server.Propagate.FanOut.{
  FanoutKind, FanoutEvent, created, written, deleted, moved, fan_out,
}

abbrev pub live_node : Str → Str → Tables → Option Node
live_node vault id t = one_where (λ (n : Node). is_node vault id n && is_null n.deleted_at) t.nodes

pub record CreateInput : Type 0 where
  pub vault_id : Str
  pub parent_id : Str
  pub type : NodeType
  pub sha256 : Option Str
  pub size : Option ℕ
  pub mtime : Str
  pub name : SealedName
  pub material : Material

-- The owner, where the vault is there and its account is not frozen.
abbrev pub writable : OwnerAccess → Tx Str
writable Quota.not_found = refuse not_found
writable (Quota.frozen user) = refuse frozen
writable (Quota.ok user) = pure user

-- A delete and a move go through a freeze.
abbrev pub reachable : OwnerAccess → Tx Str
reachable Quota.not_found = refuse not_found
reachable (Quota.frozen user) = pure user
reachable (Quota.ok user) = pure user

abbrev pub item_id_for : (Tables → Str) → Option Str → Tables → Option Str
item_id_for random_uuid share t = if truthy share then some (random_uuid t) else none

abbrev pub new_node : CreateInput → Node → Option Str → ℕ → Str → Node
new_node input into item rev id = record {
  vault_id = input.vault_id;
  id = id;
  parent_id = some input.parent_id;
  name = some input.name;
  type = input.type;
  sha256 = input.sha256;
  size = input.size;
  mtime = input.mtime;
  rev = rev;
  deleted_at = none;
  ancestry = into.ancestry ++ (input.parent_id ∷ []);
  share_id = into.share_id;
  share_item_id = item;
}

-- `if (input.sha256)`; a content without a size is an error of the program.
abbrev pub hold_content : ℕ → CreateInput → Str → Str → ℕ → Option Str → Option ℕ → Tx (Unit {0})
hold_content now input owner id rev none size = pure tt
hold_content now input owner id rev (some []) size = pure tt
hold_content now input owner id rev (some (c ∷ s)) none = throw program_error
hold_content now input owner id rev (some (c ∷ s)) (some size) = do
  add_version (version_row now input.vault_id id rev (c ∷ s) size owner)
  modify (bind_blob owner (c ∷ s))

abbrev pub created_event : CreateInput → Node → Option Str → Str → FanoutEvent
created_event input into item owner = record {
  vault_id = input.vault_id;
  share_id = into.share_id;
  share_item_id = item;
  kind = created into.share_item_id (record {
    type = input.type;
    name = input.name;
    sha256 = input.sha256;
    size = input.size;
    mtime = input.mtime;
    author_id = owner;
  });
}

pub record PutInput : Type 0 where
  pub vault_id : Str
  pub node_id : Str
  pub sha256 : Str
  pub size : ℕ
  pub mtime : Str
  pub base_sha256 : Option Str
  pub material : Material

abbrev pub event_at : Str → Node → FanoutKind → FanoutEvent
event_at vault row kind = record {
  vault_id = vault;
  share_id = row.share_id;
  share_item_id = row.share_item_id;
  kind = kind;
}

abbrev pub is_file : NodeType → Bool
is_file file = true
is_file folder = false

abbrev pub put_item : PutInput → Str → PutItem
put_item input owner = record {
  sha256 = input.sha256;
  size = input.size;
  mtime = input.mtime;
  author_id = owner;
}

pub record MoveInput : Type 0 where
  pub vault_id : Str
  pub node_id : Str
  pub parent_id : Str
  pub name : SealedName
  pub if_match_rev : ℕ

-- The mark of the folder that the node lies in, deleted or not.
abbrev pub parent_share : Tables → Node → Option Str
parent_share t n = share_of (parent_row n.parent_id)
  where
    parent_row : Option Str → Option Node
    parent_row none = none
    parent_row (some parent) = one_where (is_node n.vault_id parent) t.nodes

    share_of : Option Node → Option Str
    share_of none = none
    share_of (some p) = p.share_id

abbrev pub holds_live : Str → Str → Tables → Bool
holds_live vault id t =
    any (λ (n : Node). n.vault_id == vault && equals n.parent_id id && is_null n.deleted_at) t.nodes

module _ (new_id random_uuid : Tables → Str) (now : ℕ) where
  unfoldable pub create_node : CreateInput → Tx (Str × ℕ)
  create_node input = do
    access ← gets (λ t. owner_and_frozen t input.vault_id)
    owner ← writable access
    parent ← gets (live_node input.vault_id input.parent_id)
    into ← or_refuse parent not_found
    item ← gets (item_id_for random_uuid into.share_id)
    modify (write_material input.material)
    rev ← take_rev input.vault_id
    id ← gets new_id
    add_node (new_node input into item rev id)
    journal now input.vault_id rev id put none
    hold_content now input owner id rev input.sha256 input.size
    fan_out new_id now (created_event input into item owner)
    pure (id, rev)

  -- The condition is on the content, not on the revision.
  unfoldable pub put_content : PutInput → Tx ℕ
  put_content input = do
    access ← gets (λ t. owner_and_frozen t input.vault_id)
    owner ← writable access
    cur ← gets (live_node input.vault_id input.node_id)
    row ← or_refuse cur not_found
    refuse_if (not (is_file row.type)) not_found
    refuse_if (not (row.sha256 == input.base_sha256)) (base_mismatch row.sha256 row.rev)
    modify (write_material input.material)
    rev ← take_rev input.vault_id
    modify (update_node input.vault_id input.node_id (with_content (put_item input owner) rev))
    journal now input.vault_id rev input.node_id put none
    add_version (version_row now input.vault_id input.node_id rev input.sha256 input.size owner)
    modify (bind_blob owner input.sha256)
    fan_out new_id now (event_at input.vault_id row (written (put_item input owner)))
    pure rev

  unfoldable pub delete_node : Str → Str → ℕ → Tx ℕ
  delete_node vault node if_match_rev = do
    access ← gets (λ t. owner_and_frozen t vault)
    owner ← reachable access
    cur ← gets (live_node vault node)
    row ← or_refuse cur not_found
    refuse_if (not (row.rev == if_match_rev)) (rev_mismatch row.rev)
    held ← gets (holds_live vault node)
    refuse_if held folder_not_empty
    rev ← take_rev vault
    modify (update_node vault node (with_deletion (some now) rev))
    journal now vault rev node del none
    fan_out new_id now (event_at vault row deleted)
    pure rev

  unfoldable pub move_node : MoveInput → Tx ℕ
  move_node input = do
    access ← gets (λ t. owner_and_frozen t input.vault_id)
    owner ← reachable access
    cur ← gets (live_node input.vault_id input.node_id)
    row ← or_refuse cur not_found
    refuse_if (not (row.rev == input.if_match_rev)) (rev_mismatch row.rev)
    parent ← gets (live_node input.vault_id input.parent_id)
    dest ← or_refuse parent not_found
    from ← gets (λ t. parent_share t row)
    refuse_if (not (from == dest.share_id)) share_boundary
    rev ← take_rev input.vault_id
    modify (
        update_node input.vault_id input.node_id
          (moved_node input.parent_id input.name rev (dest.ancestry ++ (input.parent_id ∷ []))))
    modify (
        rewrite_subtree_ancestry input.vault_id input.node_id
          (dest.ancestry ++ (input.parent_id ∷ [])))
    journal now input.vault_id rev input.node_id move row.parent_id
    fan_out new_id now (event_at input.vault_id row (moved dest.share_item_id input.name))
    pure rev
