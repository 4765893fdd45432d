-- ===== src/Server/History/Restored.antt =====
-- What the restoring of server/src/history/service.ts leaves: the node and the folders that it lifted
-- are out of the trash.
use obsidian_syncserver.Prelude.{ℕ, ◌≡◌, ◌≢◌, Elem, none, List, All, Str, str_eq, nat_eq}
use obsidian_syncserver.Server.Store.{Node, Tables}
use obsidian_syncserver.Server.Tx.{Tx}
use obsidian_syncserver.Server.History.Live.{Live}

module _ (new_id : Tables → Str) (iso : ℕ → Str) (now : ℕ) (vault : Str) where
  abbrev AllLive : List Str → List Node → Type 0
  AllLive ids nodes = All (λ id. Live vault id nodes) ids

-- A folder of the node's chain that is in the trash.
abbrev pub InTrash : Tables → Str → Node → Str → Type 0
InTrash t vault n id =
    (a : Node) × Elem a t.nodes
    × (a.vault_id ≡ vault)
    × Elem a.id n.ancestry
    × (a.deleted_at ≢ none)
    × (a.id ≡ id)
