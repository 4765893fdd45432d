-- ===== src/Plugin/Tests.antt =====
-- Runs of the plugin's decisions on small vaults, and the theorems at concrete inputs.
use obsidian_syncserver.Plugin.Remap.Moved.{
  IsClear, TreeClear, remap_state-back, lookup-remap_tree, below, outside,
}
use obsidian_syncserver.Plugin.Remap.{remap_state, remap_tree}
use obsidian_syncserver.Plugin.Reconcile.Table.{Decides, Decides_iff}
use obsidian_syncserver.Plugin.Reconcile.{Situation, decide, pull}
use obsidian_syncserver.Plugin.Wire.{KnownNode, ServerNode}
use obsidian_syncserver.Plugin.Rename.Destination.{Arrived, IsBest, destination_of_lem}
use obsidian_syncserver.Plugin.Rename.Moves.{IsSound}
use obsidian_syncserver.Prelude.{
  ◌≡◌, ◌≢◌, ◌⊎◌, ◌++◌, refl, true, false, none, some, List, [], ◌∷◌, Str, Dict, codes, lookup, has,
  inl, inr, str_beq, contains, starts_with, Elem, any, last_index_of, add_to_set, sort_by, place,
  split, ends_with, str_eq, subst⁻¹, ◌↔◌, ◌≤◌, NodupKeys, All, keys,
}
use obsidian_syncserver.Plugin.Rename.{
  slash, Vanished, TreeNode, FileMeta, Gone, FolderMove, rename_source_for, folder_moves,
  parent_chain_exists, within, gone_of, folders_of, parent_path, add_ancestors, destination_of,
  Inside, consider, planned_move, children_of, fits_among, fit_at, matching_bytes, chain_exists,
}
use obsidian_syncserver.Plugin.Rename.Paths.{contains-folders_of}
use obsidian_syncserver.Plugin.Rename.Source.{rename_source_for_iff, IsLive}
use obsidian_syncserver.Plugin.Rename.Plan.{
  folder_moves-IsSound, folder_moves-AllCompatible, AllCompatible,
}

abbrev hash_a : Str
hash_a = codes "h1"

abbrev gone_note : Vanished
gone_note = record { path = codes "old/sub/n"; node_id = codes "n1"; rev = 3; address = codes "a1" }

abbrev vanished : Dict (List Vanished)
vanished = (hash_a, gone_note ∷ []) ∷ []

abbrev folder_node : Str → TreeNode
folder_node id = record { node_id = id; rev = 1; is_file = false; share_id = none }

abbrev walked : Dict TreeNode
walked =
    (codes "old", folder_node (codes "f1"))
    ∷ ((codes "old/sub", folder_node (codes "f2"))
        ∷ ((
          codes "old/sub/n",
          record { node_id = codes "n1"; rev = 3; is_file = true; share_id = none },
        )
            ∷ []))

abbrev here_now : List Str
here_now = codes "new/sub/n" ∷ []

abbrev metas : Dict FileMeta
metas = (codes "new/sub/n", record { plain_hash = hash_a; size = 900 }) ∷ []

-- A folder with a subfolder was renamed: one move of the shallowest folder.
abbrev renamed_folder : FolderMove
renamed_folder = record {
  from = codes "old";
  to = codes "new";
  node_id = codes "f1";
  rev = 1;
  children = record { hash = hash_a; to = codes "new/sub/n" } ∷ [];
  replaces = none;
}

planned : folder_moves vanished walked metas here_now ≡ renamed_folder ∷ []
unfolding folder_moves gone_of folders_of add_ancestors parent_path last_index_of add_to_set
    contains sort_by place split consider planned_move lookup starts_with children_of destination_of
    fits_among fit_at ends_with has matching_bytes parent_chain_exists str_beq chain_exists
planned = refl

rootless : lookup [] walked ≡ none
unfolding lookup str_beq
rootless = refl

folder_moves-IsSound_example : IsSound (gone_of vanished) walked here_now renamed_folder
folder_moves-IsSound_example =
    folder_moves-IsSound vanished walked metas here_now renamed_folder rootless
      (subst⁻¹ (Elem renamed_folder) planned (inl refl))

folder_moves-AllCompatible_example : AllCompatible (folder_moves vanished walked metas here_now)
folder_moves-AllCompatible_example =
    folder_moves-AllCompatible vanished walked metas here_now rootless

rename_source_for_iff_example :
    (rename_source_for (record { plain_hash = hash_a; size = 900 }) vanished walked walked
      ≡ some gone_note)
    ↔ ((512 ≤ 900)
        × (lookup hash_a vanished ≡ some (gone_note ∷ []))
        × IsLive gone_note walked walked)
rename_source_for_iff_example =
    rename_source_for_iff (record { plain_hash = hash_a; size = 900 }) vanished walked walked
      gone_note

abbrev one_child : Inside
one_child = record { hash = hash_a; rel = codes "sub/n" }

chosen : destination_of (one_child ∷ []) here_now walked metas ≡ some (codes "new")
unfolding destination_of fits_among fit_at ends_with has matching_bytes sort_by place str_beq
    contains lookup
chosen = refl

destination_of_example :
    Arrived (one_child ∷ []) (codes "new") here_now walked
    × IsBest (one_child ∷ []) here_now walked metas (codes "new")
destination_of_example = destination_of_lem one_child [] here_now walked metas (codes "new") chosen

chain_found : parent_chain_exists (codes "old/sub/m") walked ≡ true
unfolding parent_chain_exists parent_path last_index_of chain_exists split lookup str_beq
chain_found = refl

contains-folders_of_example :
    contains (codes "old/sub") (folders_of (gone_of vanished))
    ≡ any (λ (g : Gone). within (codes "old/sub") g.v.path) (gone_of vanished)
contains-folders_of_example = contains-folders_of (codes "old/sub") (gone_of vanished) (λ e. cc)

-- A note this device knows, on a vault that has a newer version of it.
abbrev known_note : KnownNode
known_note = record {
  node_id = codes "n1";
  rev = 3;
  plain_hash = hash_a;
  address = codes "a1";
  mtime = some 5;
  size = some 900;
}

abbrev server_note : ServerNode
server_note = record {
  node = record { node_id = codes "n1"; rev = 4; is_file = true; share_id = none };
  parent_id = some (codes "root");
  path = codes "n";
  address = some (codes "a2");
  name_key_id = none;
  author_id = none;
}

abbrev newer_on_server : Situation
newer_on_server = record {
  meta = record { plain_hash = hash_a; tag = codes "t"; mtime = 5; size = 900 };
  known = some known_note;
  on_server = some server_note;
  by_node_id = [];
  dedup = [];
  vanished = [];
  tree = [];
  policy = record { push_deletes = true; apply_remote_deletes = true; prefer_local = false };
}

pulled : decide newer_on_server ≡ pull server_note
unfolding decide str_beq
pulled = refl

Decides_iff_example :
    Decides newer_on_server (pull server_note) ↔ (decide newer_on_server ≡ pull server_note)
Decides_iff_example = Decides_iff newer_on_server (pull server_note)

abbrev remembered : Dict KnownNode
remembered = (codes "old/n", known_note) ∷ ((codes "b", known_note) ∷ [])

distinct : NodupKeys remembered
unfolding has str_beq
distinct = (refl, (refl, tt))

remembered-IsClear : IsClear (codes "old") (codes "new") remembered
unfolding starts_with
remembered-IsClear = (inl refl, (inr (refl, refl), tt))

remap_state-back_example :
    remap_state (remap_state remembered (codes "old") (codes "new")) (codes "new") (codes "old")
    ≡ remembered
remap_state-back_example =
    remap_state-back (codes "old") (codes "new") remembered distinct remembered-IsClear

abbrev served : Dict ServerNode
served = (codes "old/n", server_note) ∷ ((codes "b", server_note) ∷ [])

served_distinct : NodupKeys served
unfolding has str_beq
served_distinct = (refl, (refl, tt))

served_clear : All (TreeClear (codes "old") (codes "new")) (keys served)
unfolding starts_with
served_clear = (below (λ e. cc) refl, (outside (λ e. cc) refl (λ e. cc) refl, tt))

served_there : lookup (codes "old/n") served ≡ some server_note
unfolding lookup str_beq
served_there = refl

lookup-remap_tree_example :
    ((codes "old/n" ≡ codes "old")
      × (lookup (codes "new") (remap_tree served (codes "old") (codes "new") 9)
          ≡ some (record server_note {
            node = record (server_note.node) { rev = 9 };
            path = codes "new";
          })))
    ⊎ ((rest : Str) × (codes "old/n" ≡ codes "old" ++ (slash ∷ rest))
        × (lookup (codes "new" ++ (slash ∷ rest)) (remap_tree served (codes "old") (codes "new") 9)
            ≡ some (record server_note { path = codes "new" ++ (slash ∷ rest) })))
    ⊎ ((codes "old/n" ≢ codes "old")
        × ((rest : Str) → codes "old/n" ≢ codes "old" ++ (slash ∷ rest))
        × (lookup (codes "old/n") (remap_tree served (codes "old") (codes "new") 9)
            ≡ some server_note))
lookup-remap_tree_example =
    lookup-remap_tree (codes "old") (codes "new") 9 served (codes "old/n") server_note (λ e. cc)
      (λ e. cc) served_distinct served_clear served_there
