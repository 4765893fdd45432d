-- ===== src/Plugin/Reconcile.antt =====
-- plugin/src/engine/reconcile.ts: what should happen to one local file, decided and not done.
pub mod Table
use obsidian_syncserver.Prelude.{
  ℕ, Bool, true, false, not, ◌&&◌, ◌||◌, Option, none, some, List, Str, Dict, lookup, ◌==◌, str_eq,
  nat_beq, option_beq, if◌then◌else◌,
}
use obsidian_syncserver.Plugin.Rename.{Vanished, FileMeta, TreeNode, rename_source_for}
use obsidian_syncserver.Plugin.Wire.{ServerNode, KnownNode, tree_nodes}

pub record LocalMeta : Type 0 where
  pub plain_hash : Str
  pub tag : Str
  pub mtime : ℕ
  pub size : ℕ

pub record SyncPolicy : Type 0 where
  pub push_deletes : Bool
  pub apply_remote_deletes : Bool
  pub prefer_local : Bool

pub record Situation : Type 0 where
  pub meta : LocalMeta
  pub known : Option KnownNode
  pub on_server : Option ServerNode
  pub by_node_id : Dict ServerNode
  pub dedup : Dict Str
  pub vanished : Dict (List Vanished)
  pub tree : Dict ServerNode
  pub policy : SyncPolicy

pub data Decision : Type 0 where
  nothing refresh_hint : Decision
  pull : ServerNode → Decision
  push_edit : KnownNode → ServerNode → Decision
  adopt conflict : ServerNode → Decision
  remote_rename : KnownNode → ServerNode → Decision
  remove_local : Decision
  push_move : Vanished → Decision
  push_new : Decision

-- `===` of a number with one that an old entry may lack.
abbrev pub same_number : Option ℕ → ℕ → Bool
same_number none n = false
same_number (some m) n = nat_beq m n

abbrev pub local_changed : LocalMeta → KnownNode → Bool
local_changed meta known = not (known.plain_hash == meta.plain_hash)

abbrev pub remote_changed : KnownNode → ServerNode → Bool
remote_changed known on_server = not (option_beq (some known.address) on_server.address)

abbrev pub hint_stale : LocalMeta → KnownNode → Bool
hint_stale meta known =
    not (same_number known.mtime meta.mtime) || not (same_number known.size meta.size)

-- The node this device knows is still at this path.
unfoldable pub decide_same : LocalMeta → SyncPolicy → KnownNode → ServerNode → Decision
decide_same meta policy known on_server =
    if not (local_changed meta known) && not (remote_changed known on_server)
    then (if hint_stale meta known then refresh_hint else nothing)
    else if not (local_changed meta known)
        && (remote_changed known on_server && not policy.prefer_local)
    then pull on_server
    else push_edit known on_server

-- Whether the server holds these very bytes at the node's address.
abbrev pub same_content : Option Str → Option Str → Bool
same_content none address = false
same_content (some found) address = option_beq (some found) address

unfoldable pub decide_other : Situation → ServerNode → Decision
decide_other s on_server =
    if same_content (lookup s.meta.tag s.dedup) on_server.address
    then adopt on_server
    else conflict on_server

-- Nothing at this path on the server, but this device knew a node there.
unfoldable pub decide_gone : Situation → KnownNode → Decision
decide_gone s known = elim (lookup known.node_id s.by_node_id) [
  | some moved_to ↦ remote_rename known moved_to
  | none ↦
      if s.policy.apply_remote_deletes && not (local_changed s.meta known)
      then remove_local
      else push_new
]

abbrev pub file_meta : LocalMeta → FileMeta
file_meta meta = record { plain_hash = meta.plain_hash; size = meta.size }

abbrev pub source_in : Situation → Option Vanished
source_in s = rename_source_for (file_meta s.meta) s.vanished (tree_nodes s.tree) s.by_node_id

-- Never known here, not on the server.
unfoldable pub decide_new : Situation → Decision
decide_new s = elim (source_in s) [ some source ↦ push_move source | none ↦ push_new ]

unfoldable pub decide_at : Situation → Option KnownNode → Option ServerNode → Decision
unfolding decide_same decide_other decide_gone decide_new
decide_at s (some known) (some on_server) =
    if known.node_id == on_server.node_id
    then decide_same s.meta s.policy known on_server
    else decide_other s on_server
decide_at s none (some on_server) = decide_other s on_server
decide_at s (some known) none = decide_gone s known
decide_at s none none = decide_new s

unfoldable pub decide : Situation → Decision
unfolding decide_at
decide s = decide_at s s.known s.on_server
