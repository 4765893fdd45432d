-- ===== src/Server/HistoryTests.antt =====
-- A note is restored out of a folder that is in the trash as well.
use obsidian_syncserver.Prelude.{ℕ, none, some, List, [], ◌∷◌, Str, codes}
use obsidian_syncserver.Server.Store.{Node, folder, Version, Tables}
use obsidian_syncserver.Server.Tx.{Outcome, done, refused, threw}
use obsidian_syncserver.Server.StoreTests.{note, store}
use obsidian_syncserver.Server.History.{restore_node}
use obsidian_syncserver.Server.History.Live.{Live}

abbrev dir : Node
dir = record note { id = codes "d"; type = folder; sha256 = none; deleted_at = some 5 }

abbrev lost : Node
lost = record note {
  id = codes "l";
  parent_id = some (codes "d");
  ancestry = codes "r" ∷ (codes "d" ∷ []);
  deleted_at = some 4;
}

abbrev saved : Version
saved = record {
  vault_id = codes "v";
  node_id = codes "l";
  rev = 2;
  sha256 = codes "b2";
  size = 20;
  author_id = codes "u";
  at = 1;
}

abbrev trash : Tables
trash = record store { nodes = dir ∷ (lost ∷ []); versions = saved ∷ [] }

abbrev new_id : Tables → Str
new_id t = codes "new"

abbrev iso : ℕ → Str
iso at = codes "now"

abbrev after : Outcome (ℕ × List Str) → Tables
after (done answer t) = t
after (refused r t) = trash
after (threw e t) = trash

abbrev restored : Tables
restored = after (restore_node new_id iso 7 (codes "v") (codes "l") 2 trash)
