-- ===== src/Plugin/Wire.antt =====
-- plugin/src/engine/wire.ts and state.ts: what the server says of a node, and what this device
-- recorded of it. A `ServerNode` extends the four fields that the rename heuristic reads.
use obsidian_syncserver.Prelude.{
  ℕ, Option, none, some, [], ◌∷◌, Str, Dict, lookup, str_eq, ◌≡◌, refl, arith,
}
use obsidian_syncserver.Plugin.Rename.{TreeNode}

pub record ServerNode : Type 0 where
  pub node : TreeNode
  pub open node use *
  pub parent_id : Option Str
  pub path : Str
  pub address : Option Str
  pub name_key_id : Option Str
  pub author_id : Option Str

pub record KnownNode : Type 0 where
  pub node_id : Str
  pub rev : ℕ
  pub plain_hash : Str
  pub address : Str
  pub mtime : Option ℕ
  pub size : Option ℕ

-- The tree as the rename heuristic takes it.
unfoldable pub tree_nodes : Dict ServerNode → Dict TreeNode
tree_nodes [] = []
tree_nodes ((path, n) ∷ tree) = (path, n.node) ∷ tree_nodes tree

pub lookup-tree_nodes :
    (path : Str) (tree : Dict ServerNode)
    → lookup path (tree_nodes tree) ≡ elim (lookup path tree) [ none ↦ none | some n ↦ some n.node ]
unfolding lookup tree_nodes
lookup-tree_nodes path [] = refl
lookup-tree_nodes path ((j, n) ∷ tree) = ground (arith, lookup-tree_nodes path tree)
