-- ===== src/Plugin/Tree/Reported.antt =====
-- What the walk of plugin/src/engine/tree.ts returns of a node that it met.
use obsidian_syncserver.Prelude.{◌≡◌, ◌⊎◌, true, some, Str, lookup, has, contains, str_eq}
use obsidian_syncserver.Plugin.Tree.{Walk}

-- What is cut off is told as an orphan, and the path of a node is in the tree.
abbrev Kept : Str → Walk → Type 0
Kept root w =
    ((id : Str) → contains id w.cut ≡ contains id w.orphans)
    × ((id path : Str) → lookup id w.path_of ≡ some path → (id ≡ root) ⊎ (has path w.tree ≡ true))
