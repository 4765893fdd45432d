-- ===== src/Server/Remove.antt =====
-- server/src/nodes/remove.ts: removing a set of nodes, deepest first. A statement fails where
-- `ON DELETE RESTRICT` of `nodes.parent_id` refuses it, or the reference of a share to the root of its
-- subtree, and versions go with their node. The reference of a vault to its root is deferred: what
-- the commit says of it is `rootless`.
pub mod Order
pub mod Roots
use obsidian_syncserver.Prelude.{
  ℕ, ◌+◌, Bool, not, ◌&&◌, ◌||◌, Option, none, some, List, [], ◌∷◌, ◌++◌, Str, ◌==◌, filter, length,
  any, str_eq, nat_eq, leb, sort_by, if◌then◌else◌, false,
}
use obsidian_syncserver.Server.Store.{Node, Version, Share, Vault, Tables, equals}

pub record Doomed : Type 0 where
  pub id : Str
  pub vault_id : Str
  pub depth : ℕ

-- `COALESCE(array_length(n.ancestry, 1), 0)`
abbrev pub depth_of_row : Node → ℕ
depth_of_row n = length n.ancestry

abbrev pub deeper_first : Doomed → Doomed → Bool
deeper_first a b = leb b.depth a.depth

-- The loop of byDepth over the rows that are left: `level` is the last of `levels`, and `depth` the
-- depth of its rows.
unfoldable pub levels_after : ℕ → List Doomed → List Doomed → List (List Doomed)
levels_after depth level [] = level ∷ []
levels_after depth level (row ∷ rows) =
    let here = levels_after depth (level ++ (row ∷ [])) rows in
    let below = levels_after row.depth (row ∷ []) rows in
    if row.depth == depth then here else level ∷ below

abbrev pub levels_of : List Doomed → List (List Doomed)
levels_of [] = []
levels_of (row ∷ rows) = levels_after row.depth (row ∷ []) rows

abbrev pub by_depth : List Doomed → List (List Doomed)
by_depth rows = levels_of (sort_by deeper_first rows)

-- `(vault_id, id) IN level`
abbrev pub named_by : List Doomed → Str → Str → Bool
named_by level vault id = any (λ (d : Doomed). d.vault_id == vault && d.id == id) level

abbrev pub parent_named : List Doomed → Str → Option Str → Bool
parent_named level vault none = false
parent_named level vault (some parent) = named_by level vault parent

-- `ON DELETE RESTRICT` of `nodes (vault_id, parent_id)`: a row still names one of the doomed as its
-- parent.
abbrev pub holds_parent : List Doomed → Tables → Bool
holds_parent level t = any (λ (n : Node). parent_named level n.vault_id n.parent_id) t.nodes

-- `shares (initiator_vault_id, subtree_node_id)`: a share, whatever its state, names one of the doomed.
abbrev pub holds_root : List Doomed → Tables → Bool
holds_root level t =
    any (λ (s : Share). named_by level s.initiator_vault_id s.subtree_node_id) t.shares

-- One DELETE.
abbrev pub restricted : List Doomed → Tables → Bool
restricted level t = holds_parent level t || holds_root level t

-- `vaults (id, root_node_id)`, which the commit checks: a vault whose root is not there.
abbrev pub rootless : Tables → Bool
rootless t =
    any
      (λ (va : Vault).
        not (any (λ (n : Node). n.vault_id == va.id && n.id == va.root_node_id) t.nodes))
      t.vaults

abbrev pub without : List Doomed → Tables → Tables
without level t = record t {
  nodes = filter (λ (n : Node). not (named_by level n.vault_id n.id)) t.nodes;
  versions = filter (λ (v : Version). not (named_by level v.vault_id v.node_id)) t.versions;
}

abbrev pub rows_named : List Doomed → Tables → ℕ
rows_named level t = length (filter (λ (n : Node). named_by level n.vault_id n.id) t.nodes)

abbrev pub add_rows : ℕ → Option (Tables × ℕ) → Option (Tables × ℕ)
add_rows gone none = none
add_rows gone (some (t, removed)) = some (t, gone + removed)

unfoldable pub remove_levels : List (List Doomed) → Tables → Option (Tables × ℕ)
remove_levels [] t = some (t, 0)
remove_levels (level ∷ levels) t =
    let rest = remove_levels levels (without level t) in
    if restricted level t then none else add_rows (rows_named level t) rest

unfoldable pub remove_nodes_by_depth : List Doomed → Tables → Option (Tables × ℕ)
remove_nodes_by_depth doomed t = remove_levels (by_depth doomed) t
