-- ===== src/Plugin/WalkTests.antt =====
-- The theorems on marks and on the walk of the server's nodes at concrete inputs.
use obsidian_syncserver.Prelude.{
  has, lookup, ℕ, ◌≡◌, refl, false, Option, none, some, List, [], ◌∷◌, Str, codes, lookup, contains,
  has, str_eq, str_beq, option_eq,
}
use obsidian_syncserver.Plugin.Unseen.{changed, Marks, Arrival, opened, after_pass, all_seen}
use obsidian_syncserver.Plugin.Unseen.Seen.{conflict-stays, conflict_at, opened-after_pass}
use obsidian_syncserver.Plugin.Tree.{Change, Walk, server_node}

abbrev copy : Str
copy = codes "s/a (conflict).md"

abbrev marks : Marks
marks = (codes "s/b.md", record { kind = changed; at = 3 }) ∷ ((copy, conflict_at 4) ∷ [])

abbrev arrival : Str → Arrival
arrival author = record {
  path = copy;
  is_new = false;
  author_id = some author;
  share_root = some (codes "s");
  first_from_share = false;
}

conflict-stays_example :
    lookup copy (
      all_seen
        (opened (after_pass marks (arrival (codes "x") ∷ []) (copy ∷ []) (codes "me") 9) copy))
    ≡ some (conflict_at 9)
conflict-stays_example =
    conflict-stays marks (arrival (codes "x") ∷ []) (copy ∷ []) (codes "me") 9 copy copy
      (unfold has in unfold str_beq in (refl, (refl, tt)))
      (unfold contains in unfold str_beq in refl)

opened-after_pass_example :
    lookup copy (opened (after_pass marks (arrival (codes "x") ∷ []) [] (codes "me") 9) copy) ≡ none
opened-after_pass_example =
    opened-after_pass marks (arrival (codes "x")) (codes "me") 9 (conflict_at 4)
      (unfold has in unfold str_beq in (refl, (refl, tt))) (unfold lookup in unfold str_beq in refl)
      refl (unfold str_beq in refl) refl

abbrev folder : Change
folder = record {
  node_id = codes "f";
  parent_id = some (codes "r");
  name_enc = some (codes "F");
  name_key_id = none;
  sha256 = none;
  rev = 1;
  share_id = none;
  author_id = none;
}

abbrev unreadable_note : Change
unreadable_note = record {
  node_id = codes "n";
  parent_id = some (codes "f");
  name_enc = some (codes "N");
  name_key_id = some (codes "k");
  sha256 = some (codes "a");
  rev = 2;
  share_id = some (codes "s");
  author_id = none;
}

abbrev lost_note : Change
lost_note = record {
  node_id = codes "l";
  parent_id = some (codes "gone");
  name_enc = some (codes "L");
  name_key_id = none;
  sha256 = some (codes "b");
  rev = 3;
  share_id = none;
  author_id = none;
}

abbrev nodes : List Change
nodes = folder ∷ (unreadable_note ∷ (lost_note ∷ []))

-- The vault's key opens what names no scope of its own.
abbrev openable : Option Str → Option ℕ
openable none = some 0
openable (some scope) = none

abbrev walked : Walk
walked = record {
  path_of = (codes "r", []) ∷ ((codes "f", codes "F") ∷ []);
  tree = (codes "F", server_node folder (codes "F")) ∷ [];
  skipped = codes "n" ∷ [];
  unreadable = record { path = codes "F"; scope_id = some (codes "k") } ∷ [];
  orphans = codes "l" ∷ [];
  cut = codes "l" ∷ [];
}
