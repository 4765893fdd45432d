-- ===== src/Server/Ancestry.antt =====
-- server/src/ancestry.ts: the chains of ancestors below a node that moved.
pub mod Chains
use obsidian_syncserver.Prelude.{
  Bool, ◌&&◌, List, [], ◌∷◌, ◌++◌, Str, ◌==◌, contains, str_eq, if◌then◌else◌,
}
use obsidian_syncserver.Server.Store.{Node, Tables, update_where}

-- `ancestry[array_position(ancestry, id) + 1 : ]`
unfoldable pub after_id : Str → List Str → List Str
after_id id [] = []
after_id id (a ∷ ancestry) = let later = after_id id ancestry in if a == id then ancestry else later

abbrev pub is_below : Str → Str → Node → Bool
is_below vault id n = n.vault_id == vault && contains id n.ancestry

abbrev pub rechained : Str → List Str → Node → Node
rechained id chain n = record n { ancestry = chain ++ (id ∷ after_id id n.ancestry) }

unfoldable pub rewrite_subtree_ancestry : Str → Str → List Str → Tables → Tables
rewrite_subtree_ancestry vault id chain t = record t {
  nodes = update_where (is_below vault id) (rechained id chain) t.nodes;
}
