-- ===== src/Server/Replica.antt =====
-- server/src/shares/replica.ts: writing into somebody else's copy of a shared folder, with the
-- statements on `nodes` that the write paths share. `new_id` is the id that the database generates.
pub mod Heads
use obsidian_syncserver.Prelude.{
  ℕ, Bool, ◌&&◌, Option, none, some, List, [], ◌∷◌, ◌++◌, Str, codes, ◌==◌, any, str_eq,
  if◌then◌else◌,
}
use mathlib.Core.Option
use obsidian_syncserver.Server.Store.{
  NodeType, SealedName, Node, JournalOp, put, move, Version, Tables, is_null, equals, one_where,
  update_where,
}
use obsidian_syncserver.Server.Refusal.{DbError, unique_violation}
use obsidian_syncserver.Server.Holdings.{next_rev, journal_entry, record_version}
use obsidian_syncserver.Server.Ancestry.{rewrite_subtree_ancestry}
use obsidian_syncserver.Server.Tx.{
  Tx, Outcome, done, threw, program_error, pure, gets, modify, attempt, ◌>>=◌, ◌>>◌,
}

-- What the database says of a primary key that is there already.
abbrev pub taken : Str → DbError
taken key = record { code = unique_violation; constraint = some key; hint = none; message = none }

abbrev pub rev_of : Tables → Option (ℕ × Tables) → Outcome ℕ
rev_of before none = threw program_error before
rev_of before (some (rev, t)) = done rev t

abbrev pub take_rev : Str → Tx ℕ
take_rev vault t = rev_of t (next_rev vault t)

abbrev pub journal : ℕ → Str → ℕ → Str → JournalOp → Option Str → Tx (Unit {0})
journal now vault rev node op prev_parent =
    attempt (taken (codes "journal_pkey")) (journal_entry vault rev node op prev_parent now)

abbrev pub add_version : Version → Tx (Unit {0})
add_version v = attempt (taken (codes "versions_pkey")) (record_version v)

abbrev pub is_node : Str → Str → Node → Bool
is_node vault id n = n.vault_id == vault && n.id == id

unfoldable pub update_node : Str → Str → (Node → Node) → Tables → Tables
update_node vault id f t = record t { nodes = update_where (is_node vault id) f t.nodes }

unfoldable pub insert_node : Node → Tables → Option Tables
insert_node n t =
    if any (is_node n.vault_id n.id) t.nodes
    then none
    else some (record t { nodes = t.nodes ++ (n ∷ []) })

abbrev pub add_node : Node → Tx (Unit {0})
add_node n = attempt (taken (codes "nodes_pkey")) (insert_node n)

pub record Counterpart : Type 0 where
  pub id : Str
  pub ancestry : List Str

abbrev pub counterpart : Node → Counterpart
counterpart n = record { id = n.id; ancestry = n.ancestry }

-- The live node of the item; the query that includes deleted ones is not modelled.
unfoldable pub counterpart_of : Str → Str → Tables → Option Counterpart
counterpart_of vault item t = Option.map counterpart (
    one_where
      (λ (n : Node). n.vault_id == vault && equals n.share_item_id item && is_null n.deleted_at)
      t.nodes)

pub record ReplicaItem : Type 0 where
  pub share_item_id : Str
  pub type : NodeType
  pub name : SealedName
  pub sha256 : Option Str
  pub size : Option ℕ
  pub mtime : Str

abbrev pub chain_below : Counterpart → List Str
chain_below parent = parent.ancestry ++ (parent.id ∷ [])

abbrev pub replica_node : Str → Str → Counterpart → ReplicaItem → ℕ → Str → Node
replica_node vault share parent item rev id = record {
  vault_id = vault;
  id = id;
  parent_id = some parent.id;
  name = some item.name;
  type = item.type;
  sha256 = item.sha256;
  size = item.size;
  mtime = item.mtime;
  rev = rev;
  deleted_at = none;
  ancestry = chain_below parent;
  share_id = some share;
  share_item_id = some item.share_item_id;
}

unfoldable pub create_counterpart :
    (Tables → Str) → ℕ → Str → Str → Counterpart → ReplicaItem → Tx (Counterpart × ℕ)
create_counterpart new_id now vault share parent item = do
  rev ← take_rev vault
  id ← gets new_id
  add_node (replica_node vault share parent item rev id)
  journal now vault rev id put none
  pure (record { id = id; ancestry = chain_below parent }, rev)

abbrev pub moved_node : Str → SealedName → ℕ → List Str → Node → Node
moved_node parent name rev ancestry n = record n {
  parent_id = some parent;
  name = some name;
  rev = rev;
  ancestry = ancestry;
}

abbrev pub parent_of : Option Node → Option Str
parent_of none = none
parent_of (some n) = n.parent_id

-- The move without `undelete`.
unfoldable pub move_counterpart : ℕ → Str → Str → Counterpart → SealedName → Tx ℕ
move_counterpart now vault node parent name = do
  rev ← take_rev vault
  prev_parent ← gets (λ t. parent_of (one_where (is_node vault node) t.nodes))
  modify (update_node vault node (moved_node parent.id name rev (chain_below parent)))
  modify (rewrite_subtree_ancestry vault node (chain_below parent))
  journal now vault rev node move prev_parent
  pure rev
