-- ===== src/Plugin/Tree.antt =====
-- plugin/src/engine/tree.ts and scopes.ts: the server's nodes as paths, and the scope that content is
-- sealed under. The vault's key, the keys that can be opened, and the decryption of a name, which
-- may fail, are parameters.
pub mod Reported
pub mod Walked
pub mod Whole
use obsidian_syncserver.Prelude.{
  ℕ, Bool, true, false, not, ◌&&◌, Option, none, some, List, [], ◌∷◌, ◌++◌, Str, codes, ◌==◌, any,
  Dict, lookup, insert, contains, add_to_set, truthy, str_eq, option_eq, if◌then◌else◌,
}
use obsidian_syncserver.Plugin.Rename.{TreeNode}
use obsidian_syncserver.Plugin.Wire.{ServerNode}

-- shared/src/index.ts, the fields that the walk reads.
pub record Change : Type 0 where
  pub node_id : Str
  pub parent_id : Option Str
  pub name_enc : Option Str
  pub name_key_id : Option Str
  pub sha256 : Option Str
  pub rev : ℕ
  pub share_id : Option Str
  pub author_id : Option Str

pub record UnreadableFolder : Type 0 where
  pub path : Str
  pub scope_id : Option Str

pub record Walk : Type 0 where
  pub path_of : Dict Str
  pub tree : Dict ServerNode
  pub skipped : List Str
  pub unreadable : List UnreadableFolder
  pub orphans : List Str
  pub cut : List Str

-- `n.parent_id && ids.has(n.parent_id)`, where an empty id is false as well.
abbrev pub parent_in : Option Str → List Str → Bool
parent_in none ids = false
parent_in (some parent) ids = truthy (some parent) && contains parent ids

abbrev pub parent_path_of : Option Str → Dict Str → Option Str
parent_path_of none path_of = none
parent_path_of (some parent) path_of = if truthy (some parent) then lookup parent path_of else none

abbrev pub orphan : Change → Walk → Walk
orphan n w = record w { cut = add_to_set n.node_id w.cut; orphans = w.orphans ++ (n.node_id ∷ []) }

abbrev pub skip : Change → Walk → Walk
skip n w = record w { skipped = add_to_set n.node_id w.skipped }

abbrev pub told : Option Str → List UnreadableFolder → Bool
told scope_id unreadable = any (λ (u : UnreadableFolder). u.scope_id == scope_id) unreadable

abbrev pub unread : Change → Str → Walk → Walk
unread n parent w =
    let s = skip n w in
    if truthy (some parent) && not (told n.name_key_id w.unreadable)
    then record s {
      unreadable = w.unreadable ++ (record { path = parent; scope_id = n.name_key_id } ∷ []);
    }
    else s

abbrev pub path_in : Str → Str → Str
path_in parent name = if truthy (some parent) then parent ++ codes "/" ++ name else name

abbrev pub is_some : Option Str → Bool
is_some none = false
is_some (some a) = true

abbrev pub server_node : Change → Str → ServerNode
server_node n path = record {
  node = record {
    node_id = n.node_id;
    rev = n.rev;
    is_file = is_some n.sha256;
    share_id = n.share_id;
  };
  parent_id = n.parent_id;
  path = path;
  address = n.sha256;
  name_key_id = n.name_key_id;
  author_id = n.author_id;
}

abbrev pub placed : Change → Str → Walk → Walk
placed n path w = record w {
  path_of = insert n.node_id path w.path_of;
  tree = insert path (server_node n path) w.tree;
}

module _ {Key : Type 0} (vault_key : Key) (key_if_openable : Option Str → Option Key)
    (decrypt_name : Key → Str → Option Str) where
  abbrev pub key_of : Change → Option Key
  key_of n = if truthy n.name_enc then key_if_openable n.name_key_id else some vault_key

  abbrev pub named : Option Str → Key → Str → Option Str
  named none key id = some id
  named (some enc) key id = if truthy (some enc) then decrypt_name key enc else some id

  abbrev pub placed_as : Change → Str → Walk → Option Str → Option Walk
  placed_as n parent w none = none
  placed_as n parent w (some name) = some (placed n (path_in parent name) w)

  abbrev pub opened_with : Change → Str → Walk → Option Key → Option Walk
  opened_with n parent w none = some (unread n parent w)
  opened_with n parent w (some key) = placed_as n parent w (named n.name_enc key n.node_id)

  abbrev pub below : Change → Walk → Option Str → Option Walk
  below n w none = some (orphan n w)
  below n w (some parent) = opened_with n parent w (key_of n)

  -- One round of the loop; `none` where the name's decryption throws.
  unfoldable pub walk_node : Str → Change → Walk → Option Walk
  walk_node root n w =
      if n.node_id == root
      then some w
      else if parent_in n.parent_id w.cut
      then some (orphan n w)
      else if parent_in n.parent_id w.skipped
      then some (skip n w)
      else below n w (parent_path_of n.parent_id w.path_of)

  unfoldable pub walk_nodes : Str → List Change → Option Walk → Option Walk
  walk_nodes root nodes none = none
  walk_nodes root [] (some w) = some w
  walk_nodes root (n ∷ nodes) (some w) = walk_nodes root nodes (walk_node root n w)

  unfoldable pub tree_from : List Change → Str → Option Walk
  tree_from nodes root = walk_nodes root nodes (
      some (record {
        path_of = (root, []) ∷ [];
        tree = [];
        skipped = [];
        unreadable = [];
        orphans = [];
        cut = [];
      }))

-- engine/scopes.ts
pub record ParentScope : Type 0 where
  pub name_key_id : Option Str
  pub share_id : Option Str

abbrev pub or_else : Option Str → Str → Str
or_else none a = a
or_else (some b) a = b

abbrev pub share_scope : Option Str → Dict Str → Option Str
share_scope none scopes = none
share_scope (some share) scopes = lookup share scopes

unfoldable pub content_scope_for : Option ParentScope → Dict Str → Str → Str
content_scope_for none scopes vault = vault
content_scope_for (some parent) scopes vault =
    if truthy parent.share_id
    then or_else (share_scope parent.share_id scopes) (or_else parent.name_key_id vault)
    else or_else parent.name_key_id vault
