-- ===== src/Plugin/Rename.antt =====
-- plugin/src/engine/rename.ts: rename sources and folder moves. Sets and maps are lists in
-- insertion order, and `Array.sort` is the stable insertion sort. The laws stand in the modules
-- below.
pub mod Paths
pub mod Source
pub mod Destination
pub mod Chain
pub mod Moves
pub mod Plan
use mathlib.Core.List.{foldl}
use obsidian_syncserver.Prelude.{
  ℕ, zero, suc, ◌+◌, ◌-◌, Bool, true, false, not, ◌&&◌, ◌||◌, Option, none, some, List, [], ◌∷◌,
  ◌++◌, map, Str, ◌==◌, str_eq, nat_eq, ltb, leb, if◌then◌else◌, length, take, drop, filter, all,
  any, starts_with, ends_with, last_index_of, split, Dict, lookup, has, keys, contains, add_to_set,
  truthy, unless, sort_by, option_beq,
}

-- '/'
abbrev pub slash : ℕ
slash = 47

pub record Vanished : Type 0 where
  pub path : Str
  pub node_id : Str
  pub rev : ℕ
  pub address : Str

pub record TreeNode : Type 0 where
  pub node_id : Str
  pub rev : ℕ
  pub is_file : Bool
  pub share_id : Option Str

pub record FileMeta : Type 0 where
  pub plain_hash : Str
  pub size : ℕ

abbrev pub rename_min_bytes : ℕ
rename_min_bytes = 512

unfoldable pub parent_path : Str → Str
parent_path path = elim (last_index_of slash path) [ none ↦ [] | some cut ↦ take cut path ]

unfoldable pub base_path : Str → Str
base_path path = elim (last_index_of slash path) [ none ↦ path | some cut ↦ drop (suc cut) path ]

abbrev pub same_node : Option TreeNode → Vanished → Bool
same_node none source = false
same_node (some node) source = node.node_id == source.node_id

abbrev pub still_there : Vanished → Dict TreeNode → Bool
still_there source tree = same_node (lookup source.path tree) source

-- The one candidate that the map of vanished files holds for these bytes.
abbrev pub only_candidate : Option (List Vanished) → Option Vanished
only_candidate (some (source ∷ [])) = some source
only_candidate _ = none

module _ {ℓ} {N : Type ℓ} where
  unfoldable pub rename_source_for :
      FileMeta → Dict (List Vanished) → Dict TreeNode → Dict N → Option Vanished
  rename_source_for meta vanished tree by_node_id =
      if ltb meta.size rename_min_bytes
      then none
      else elim (only_candidate (lookup meta.plain_hash vanished)) [
        | none ↦ none
        | some source ↦
            if not (still_there source tree) && not (has source.node_id by_node_id)
            then none
            else some source
      ]

pub record Child : Type 0 where
  pub hash : Str
  pub to : Str

-- What `folderMoves` knows of a child before its destination is chosen.
pub record Inside : Type 0 where
  pub hash : Str
  pub rel : Str

pub record Replaced : Type 0 where
  pub node_id : Str
  pub rev : ℕ

pub record FolderMove : Type 0 where
  pub from : Str
  pub to : Str
  pub node_id : Str
  pub rev : ℕ
  pub children : List Child
  pub replaces : Option Replaced

pub record Gone : Type 0 where
  pub v : Vanished
  pub hash : Str

abbrev tag_gone : Str → List Vanished → List Gone
tag_gone hash [] = []
tag_gone hash (v ∷ list) = record { v = v; hash = hash } ∷ tag_gone hash list

unfoldable pub gone_of : Dict (List Vanished) → List Gone
gone_of [] = []
gone_of ((hash, list) ∷ rest) = tag_gone hash list ++ gone_of rest

-- `for (let p = parentPath(v.path); p; p = parentPath(p)) folders.add(p)`. The fuel is the length
-- of the path, which the first parent is shorter than and which falls in every round.
unfoldable pub add_ancestors : ℕ → Str → List Str → List Str
add_ancestors zero p folders = folders
add_ancestors (suc fuel) p folders =
    let rest = add_ancestors fuel (parent_path p) (add_to_set p folders) in
    if p == [] then folders else rest

unfoldable pub folders_of : List Gone → List Str
folders_of gone =
    foldl (λ folders g. add_ancestors (length g.v.path) (parent_path g.v.path) folders) [] gone

abbrev pub within : Str → Str → Bool
within dir p = starts_with p (dir ++ (slash ∷ []))

-- `${dir}/${rel}`
abbrev pub join : Str → Str → Str
join dir rel = dir ++ (slash ∷ rel)

abbrev pub depth_of : Str → ℕ
depth_of p = length (split slash p)

unfoldable pub leftover : Str → TreeNode → Dict TreeNode → Bool
leftover path node tree =
    not node.is_file && (not (truthy node.share_id) && not (any (within path) (keys tree)))

abbrev hash_at : Dict FileMeta → Str → Option Str
hash_at meta path = elim (lookup path meta) [ none ↦ none | some m ↦ some m.plain_hash ]

unfoldable pub matching_bytes : List Inside → Str → Dict FileMeta → ℕ
matching_bytes children to meta =
    length
      (filter (λ (c : Inside). option_beq (hash_at meta (join to c.rel)) (some c.hash)) children)

pub record Fit : Type 0 where
  pub to : Str
  pub matching : ℕ

-- The folder that would hold the first child at its relative path.
abbrev pub folder_above : Str → Str → Str
folder_above path rel = take (length path - length rel - 1) path

-- A path that exists here and that the server does not hold.
abbrev pub lands : List Str → Dict TreeNode → Str → Inside → Bool
lands here tree to c = contains (join to c.rel) here && not (has (join to c.rel) tree)

-- One round of the loop over `here`.
unfoldable pub fit_at :
    List Inside → Inside → List Str → Dict TreeNode → Dict FileMeta → Str → Option Fit
fit_at children first here tree meta path =
    unless (not (ends_with path (slash ∷ first.rel)) || has path tree) (
      unless (not (all (lands here tree (folder_above path first.rel)) children)) (
        some (record {
          to = folder_above path first.rel;
          matching = matching_bytes children (folder_above path first.rel) meta;
        })))

unfoldable pub fits_among :
    List Inside → Inside → List Str → Dict TreeNode → Dict FileMeta → List Str → List Fit
fits_among children first here tree meta [] = []
fits_among children first here tree meta (path ∷ paths) =
    let rest = fits_among children first here tree meta paths in
    elim (fit_at children first here tree meta path) [ none ↦ rest | some f ↦ f ∷ rest ]

-- The best of the sorted fits, unless the first two tie.
abbrev pub best_fit : List Fit → Option Str
best_fit [] = none
best_fit (f ∷ []) = some f.to
best_fit (f ∷ g ∷ fits) = if f.matching == g.matching then none else some f.to

-- `fits.sort((a, b) => b.matching - a.matching)`
abbrev pub by_matching : Fit → Fit → Bool
by_matching a b = leb b.matching a.matching

unfoldable pub destination_of : List Inside → List Str → Dict TreeNode → Dict FileMeta → Option Str
destination_of [] here tree meta = none
destination_of (first ∷ more) here tree meta =
    best_fit (sort_by by_matching (fits_among (first ∷ more) first here tree meta here))

-- The loop over the parts of the parent; `next` is the path so far with the part at hand.
unfoldable pub chain_exists : Str → List Str → Dict TreeNode → Bool
chain_exists sofar [] tree = true
chain_exists sofar (part ∷ parts) tree =
    let rest = chain_exists (if sofar == [] then part else join sofar part) parts tree in
    elim (lookup (if sofar == [] then part else join sofar part) tree) [
      | none ↦ false
      | some node ↦ if node.is_file then false else rest
    ]

unfoldable pub parent_chain_exists : Str → Dict TreeNode → Bool
parent_chain_exists path tree =
    if parent_path path == [] then true else chain_exists [] (split slash (parent_path path)) tree

unfoldable pub children_of : List Gone → Str → List Inside
children_of [] from = []
children_of (g ∷ gone) from =
    let rest = children_of gone from in
    if within from g.v.path
    then record { hash = g.hash; rel = drop (suc (length from)) g.v.path } ∷ rest
    else rest

abbrev settle_children : Str → List Inside → List Child
settle_children to [] = []
settle_children to (c ∷ cs) = record { hash = c.hash; to = join to c.rel } ∷ settle_children to cs

abbrev replaced_by : Option TreeNode → Option Replaced
replaced_by none = none
replaced_by (some there) = some (record { node_id = there.node_id; rev = there.rev })

-- `there && !leftover(to, there, tree)`
abbrev pub blocked : Str → Dict TreeNode → Bool
blocked to tree = elim (lookup to tree) [ none ↦ false | some there ↦ not (leftover to there tree) ]

pub record MovePlan : Type 0 where
  pub plan : List FolderMove
  pub claimed : List Str

-- One round of the loop over the folders, shallowest first: the move that it plans, if any.
module _ (gone : List Gone) (tree : Dict TreeNode) (meta : Dict FileMeta) (here : List Str) where
  unfoldable pub planned_move : Str → MovePlan → Option FolderMove
  planned_move from st =
      unless (any (λ (m : FolderMove). from == m.from || within m.from from) st.plan)
        (elim (lookup from tree) [
          | none ↦ none
          | some source ↦ unless source.is_file (
              unless (any (within from) here)
                (elim (destination_of (children_of gone from) here tree meta) [
                  | none ↦ none
                  | some to ↦ unless (to == from || within from to) (
                      unless (not (parent_chain_exists to tree) || contains to st.claimed) (
                        unless (blocked to tree) (
                          some (record {
                            from = from;
                            to = to;
                            node_id = source.node_id;
                            rev = source.rev;
                            children = settle_children to (children_of gone from);
                            replaces = replaced_by (lookup to tree);
                          }))))
                ]))
        ])

  unfoldable pub consider : MovePlan → Str → MovePlan
  consider st from = elim (planned_move from st) [
    | none ↦ st
    | some m ↦ record { plan = st.plan ++ (m ∷ []); claimed = add_to_set m.to st.claimed }
  ]

abbrev pub shallow_first : Str → Str → Bool
shallow_first a b = leb (depth_of a) (depth_of b)

unfoldable pub folder_moves :
    Dict (List Vanished) → Dict TreeNode → Dict FileMeta → List Str → List FolderMove
folder_moves vanished tree meta here =
    let gone = gone_of vanished in
    (foldl (consider gone tree meta here) (record { plan = []; claimed = [] })
      (sort_by shallow_first (folders_of gone))).plan
