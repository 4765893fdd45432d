-- ===== src/Plugin/Remap.antt =====
-- plugin/src/engine/remap.ts: the walk's two maps after a folder move. Both are rebuilt entry by
-- entry, in their order; the keys of a plain object are taken in the order they were added.
pub mod Rebuild
pub mod Moved
use mathlib.Core.List.{foldl}
use obsidian_syncserver.Prelude.{
  ℕ, List, [], ◌∷◌, ◌++◌, Bool, true, false, Option, some, Str, Dict, insert, length, drop,
  starts_with, str_eq, ◌==◌, if◌then◌else◌,
}
use obsidian_syncserver.Plugin.Rename.{slash}
use obsidian_syncserver.Plugin.Wire.{ServerNode, KnownNode}
use Rebuild.{rebuild}

-- `dir ? `${dir}/` : ''`
abbrev pub prefix_of : Str → Str
prefix_of [] = []
prefix_of (c ∷ dir) = (c ∷ dir) ++ (slash ∷ [])

abbrev pub moved_path : Str → Str → Str → Str
moved_path from to path = prefix_of to ++ drop (length (prefix_of from)) path

abbrev pub tree_path : Str → Str → Str → Str
tree_path from to path =
    if path == from
    then to
    else if starts_with path (prefix_of from)
    then moved_path from to path
    else path

abbrev pub with_rev : ServerNode → ℕ → ServerNode
with_rev node rev = record node { node = record (node.node) { rev = rev } }

abbrev pub tree_node : Str → Str → ℕ → Str → ServerNode → ServerNode
tree_node from to rev path node =
    if path == from
    then record (with_rev node rev) { path = to }
    else if starts_with path (prefix_of from)
    then record node { path = moved_path from to path }
    else node

unfoldable pub remap_tree : Dict ServerNode → Str → Str → ℕ → Dict ServerNode
remap_tree tree from to rev = rebuild (tree_path from to) (tree_node from to rev) tree

abbrev pub state_path : Str → Str → Str → Str
state_path from to path =
    if starts_with path (prefix_of from) then moved_path from to path else path

unfoldable pub remap_state : Dict KnownNode → Str → Str → Dict KnownNode
remap_state nodes from to = rebuild (state_path from to) (λ path known. known) nodes
