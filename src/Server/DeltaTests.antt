-- ===== src/Server/DeltaTests.antt =====
-- The theorems on the delta, at a vault that is written while a device reads it.
use obsidian_syncserver.Prelude.{
  ℕ, ◌≡◌, ◌≢◌, refl, ap, inl, inr, true, false, Option, none, some, List, [], ◌∷◌, ◌++◌, Elem, Str,
  codes, str_beq, str_eq, sort_by, place, text_leb, arith, map, lookup, contains, insert, ◌<◌,
}
use obsidian_syncserver.Server.Store.{Node, folder, JournalRow, put, Tables}
use obsidian_syncserver.Server.Quota.{owns_vault}
use obsidian_syncserver.Server.StoreTests.{note, store}
use obsidian_syncserver.Server.Delta.{
  CursorPayload, VaultPosition, Page, rows_between, cursor_at, last_rev, delta_page, read_changes,
  read_position, rejection_for, min_rev,
}
use obsidian_syncserver.Server.Delta.Series.{ToldLatest, series, series_complete}
use obsidian_syncserver.Server.Delta.Ascending.{Keyed}
use obsidian_syncserver.Server.Delta.Steady.{GoesOn}
use obsidian_syncserver.Server.Delta.Cursor.{Signed, decode_cursor, index_of}
use obsidian_syncserver.Server.Delta.Answer.{
  DeltaReply, Current, answered, get_delta, get_delta-Current,
}
use obsidian_syncserver.Server.Delta.Listing.{listed_nodes, latest_version, list_subtree}
use obsidian_syncserver.Server.Delta.Device.{Planted, received, tree_from-list_subtree}
use obsidian_syncserver.Plugin.Tree.{Walk, tree_from, walk_nodes, walk_node}

abbrev row : ℕ → Str → JournalRow
row rev node = record {
  vault_id = codes "v";
  rev = rev;
  node_id = node;
  prev_parent_id = none;
  op = put;
  node_rev = rev;
  at = 0;
}

abbrev root : Node
root = record note { id = codes "r"; parent_id = none; type = folder; sha256 = none; ancestry = [] }

abbrev other : Node
other = record note { id = codes "m" }

-- Of the three rows of the snapshot the first is overtaken by the third.
abbrev first : Tables
first = record store {
  nodes = note ∷ (root ∷ (other ∷ []));
  journal = row 1 (codes "n") ∷ (row 2 (codes "m") ∷ (row 3 (codes "n") ∷ []));
}

-- While the device reads, the second node is written again.
abbrev later : Tables
later = record first { journal = first.journal ++ (row 4 (codes "m") ∷ []) }

abbrev position : ℕ → VaultPosition
position head = record {
  head_rev = head;
  reset_epoch = 1;
  restore_epoch = 1;
  oldest_journal_rev = some 1;
}

abbrev start : CursorPayload
start = cursor_at (codes "u") (codes "v") (position 3) 0 none

abbrev moments : List (Tables × VaultPosition)
moments = (later, position 4) ∷ ((later, position 4) ∷ [])

series_run : (series (codes "u") (codes "v") 1 ((first, position 3) ∷ moments) start).cursor.rev ≡ 3
unfolding series delta_page read_changes rows_between sort_by place last_rev str_beq
series_run = refl

rev_of : (j l : JournalRow) → l ≡ j → l.rev ≡ j.rev
rev_of j l e = ap (λ (j : JournalRow). j.rev) e

first-Keyed : Keyed first.journal
first-Keyed = (above_first, (above_second, ((λ l m. absurd m), tt)))
  where
    above_first :
        (l : JournalRow)
        → Elem l (row 2 (codes "m") ∷ (row 3 (codes "n") ∷ []))
        → l.vault_id ≡ codes "v"
        → 1 ≢ l.rev
    above_first l (inl e) v same = absurd (omega (arith, same, rev_of _ l e))
    above_first l (inr (inl e)) v same = absurd (omega (arith, same, rev_of _ l e))
    above_first l (inr (inr m)) v same = absurd m

    above_second :
        (l : JournalRow) → Elem l (row 3 (codes "n") ∷ []) → l.vault_id ≡ codes "v" → 2 ≢ l.rev
    above_second l (inl e) v same = absurd (omega (arith, same, rev_of _ l e))
    above_second l (inr m) v same = absurd m

later-GoesOn : GoesOn (codes "v") 3 first later
later-GoesOn = record {
  later_rows = row 4 (codes "m") ∷ [];
  journal_grown = refl;
  later_beyond = beyond;
  nodes_stay = λ j m. refl;
}
  where
    beyond : (j : JournalRow) → Elem j (row 4 (codes "m") ∷ []) → j.vault_id ≡ codes "v" → 3 < j.rev
    beyond j (inl e) v = omega (arith, rev_of _ j e)
    beyond j (inr m) v = absurd m

series_complete_example :
    ToldLatest first
      (codes "v")
      0
      3
      (series (codes "u") (codes "v") 1 ((first, position 3) ∷ moments) start)
series_complete_example =
    series_complete (codes "u") (codes "v") 0 start first (position 3) moments first-Keyed
      (later-GoesOn, (later-GoesOn, tt))
      (unfold rows_between in unfold sort_by in unfold place in unfold str_beq in omega arith)

abbrev token : Str
token = codes "x." ++ (codes "s" ++ codes "x")

abbrev seal : Str → Str
seal body = codes "s" ++ body

abbrev read_back : Str → Option CursorPayload
read_back body = some start

abbrev reply : DeltaReply
reply = get_delta seal read_back first (codes "u") (codes "v") (some token) none

abbrev page_in : DeltaReply → Page
page_in (answered page) = page
page_in other_reply = record { changes = []; next_cursor = start; has_more = false }

get_delta_run : reply ≡ answered (page_in reply)
unfolding get_delta owns_vault str_beq read_position min_rev decode_cursor index_of rejection_for
    delta_page read_changes rows_between sort_by place
get_delta_run = refl

get_delta-Current_example :
    (owns_vault first (codes "u") (codes "v") ≡ true)
    × ((at : VaultPosition) × (cursor : CursorPayload) × (read_position (codes "v") first ≡ some at)
        × Signed seal read_back token (codes "u") (codes "v") cursor
        × Current first (codes "v") cursor at)
get_delta-Current_example =
    get_delta-Current seal read_back first (codes "u") (codes "v") none (page_in reply) 120
      (codes ".sx") get_delta_run

first-Planted : Planted first (codes "v") (codes "r")
first-Planted n (inl e) v l = inr (
  root,
  inr (inl refl),
  refl,
  refl,
  ap (λ (n : Node). n.parent_id) e,
  (λ h. cc),
  ap (λ (n : Node). n.ancestry) e,
)
first-Planted n (inr (inl e)) v l = inl (ap (λ (n : Node). n.id) e)
first-Planted n (inr (inr (inl e))) v l = inr (
  root,
  inr (inl refl),
  refl,
  refl,
  ap (λ (n : Node). n.parent_id) e,
  (λ h. cc),
  ap (λ (n : Node). n.ancestry) e,
)
first-Planted n (inr (inr (inr m))) v l = absurd m

abbrev read_name : Str → Str → Option Str
read_name key name = some name

abbrev no_walk : Walk
no_walk = record {
  path_of = [];
  tree = [];
  skipped = [];
  unreadable = [];
  orphans = codes "x" ∷ [];
  cut = [];
}

abbrev walk_in : Option Walk → Walk
walk_in none = no_walk
walk_in (some w) = w

abbrev walked : Option Walk
walked =
    tree_from (codes "k") (λ id. none) read_name
      (map received (list_subtree first (codes "v") none)) (codes "r")

walked_run : walked ≡ some (walk_in walked)
unfolding tree_from walk_nodes walk_node list_subtree listed_nodes latest_version sort_by place
    str_beq text_leb lookup contains insert
walked_run = refl

tree_from-list_subtree_example : (walk_in walked).orphans ≡ []
tree_from-list_subtree_example =
    tree_from-list_subtree first (codes "v") (codes "r") first-Planted (codes "k") (λ id. none)
      read_name (walk_in walked) walked_run
