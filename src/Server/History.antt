-- ===== src/Server/History.antt =====
-- server/src/history/service.ts: the versions of a node, the trash, and the restoring of a version.
pub mod Heads
pub mod Live
pub mod Restored
use obsidian_syncserver.Prelude.{
  ℕ, Bool, true, false, not, ◌&&◌, ◌||◌, Option, none, some, List, [], ◌∷◌, Str, ◌==◌, map, take,
  filter, length, any, leb, contains, sort_by, str_eq, nat_eq, if◌then◌else◌,
}
use obsidian_syncserver.Server.Store.{
  NodeType, file, folder, SealedName, Node, put, Version, Tables, is_null, equals, one_where,
}
use obsidian_syncserver.Server.Refusal.{not_found, no_such_version, name_taken}
use obsidian_syncserver.Server.Holdings.{claim_blob}
use obsidian_syncserver.Server.Quota.{owner_and_frozen}
use obsidian_syncserver.Server.Tx.{Tx, pure, refuse, gets, or_refuse, when, modify, ◌>>=◌, ◌>>◌}
use obsidian_syncserver.Server.Replica.{take_rev, journal, add_version, is_node, update_node}
use obsidian_syncserver.Server.Propagate.{PutItem, with_deletion, version_row}
use obsidian_syncserver.Server.Propagate.FanOut.{present, written, undeleted, fan_out}
use obsidian_syncserver.Server.Nodes.{writable, event_at, is_file}

abbrev pub is_version_of : Str → Str → Version → Bool
is_version_of vault node v = v.vault_id == vault && v.node_id == node

abbrev pub newest_first : Version → Version → Bool
newest_first v w = leb w.rev v.rev

unfoldable pub list_versions : Str → Str → Tables → List Version
list_versions vault node t = sort_by newest_first (filter (is_version_of vault node) t.versions)

pub record TrashEntry : Type 0 where
  pub node_id : Str
  pub parent_id : Option Str
  pub name : Option SealedName
  pub type : NodeType
  pub deleted_at : Option ℕ
  pub versions : ℕ
  pub share_id : Option Str

abbrev pub is_below_or_any : Option Str → Node → Bool
is_below_or_any none n = true
is_below_or_any (some under) n = contains under n.ancestry

-- A deleted node with a version.
abbrev pub in_trash : Tables → Str → Option Str → Node → Bool
in_trash t vault under n =
    n.vault_id == vault
    && not (is_null n.deleted_at)
    && any (is_version_of n.vault_id n.id) t.versions
    && is_below_or_any under n

abbrev pub time_or_zero : Option ℕ → ℕ
time_or_zero none = 0
time_or_zero (some at) = at

abbrev pub latest_first : Node → Node → Bool
latest_first n m = leb (time_or_zero m.deleted_at) (time_or_zero n.deleted_at)

abbrev pub trash_entry : Tables → Node → TrashEntry
trash_entry t n = record {
  node_id = n.id;
  parent_id = n.parent_id;
  name = n.name;
  type = n.type;
  deleted_at = n.deleted_at;
  versions = length (filter (is_version_of n.vault_id n.id) t.versions);
  share_id = n.share_id;
}

unfoldable pub list_trash : Str → Option Str → ℕ → Tables → List TrashEntry × ℕ
list_trash vault under limit t =
    let trash = filter (in_trash t vault under) t.nodes in
    (map (trash_entry t) (take limit (sort_by latest_first trash)), length trash)

abbrev pub has_hmac : Str → Option SealedName → Bool
has_hmac hmac none = false
has_hmac hmac (some name) = name.hmac == hmac

abbrev pub is_sibling : Str → Str → Str → Str → Node → Bool
is_sibling vault parent hmac self n =
    n.vault_id == vault
    && equals n.parent_id parent
    && has_hmac hmac n.name
    && is_null n.deleted_at
    && not (n.id == self)

abbrev pub id_of : Option Node → Option Str
id_of none = none
id_of (some n) = some n.id

-- A live sibling that uses the name already.
abbrev pub blocking_under : Str → Option Str → Option SealedName → Str → Tables → Option Str
blocking_under vault none name self t = none
blocking_under vault (some parent) none self t = none
blocking_under vault (some parent) (some name) self t =
    id_of (one_where (is_sibling vault parent name.hmac self) t.nodes)

unfoldable pub blocking_sibling : Str → Node → Tables → Option Str
blocking_sibling vault n t = blocking_under vault (present n.parent_id) n.name n.id t

-- `ORDER BY array_length(ancestry, 1)`: the length of an empty array is NULL, and comes last.
abbrev pub by_length : List Str → List Str → Bool
by_length [] [] = true
by_length [] (b ∷ other) = false
by_length (a ∷ above) [] = true
by_length (a ∷ above) (b ∷ other) = leb (length above) (length other)

abbrev pub outermost_first : Node → Node → Bool
outermost_first a b = by_length a.ancestry b.ancestry

unfoldable pub deleted_ancestors : Str → Node → Tables → List Node
deleted_ancestors vault n t = sort_by outermost_first (
    filter
      (λ (a : Node). a.vault_id == vault && contains a.id n.ancestry && not (is_null a.deleted_at))
      t.nodes)

abbrev pub refuse_blocked : Option Str → Tx (Unit {0})
refuse_blocked none = pure tt
refuse_blocked (some id) = refuse (name_taken (some id))

unfoldable pub refuse_any_blocked : Str → List Node → Tx (Unit {0})
refuse_any_blocked vault [] = pure tt
refuse_any_blocked vault (a ∷ ancestors) = do
  blocked ← gets (blocking_sibling vault a)
  refuse_blocked blocked
  refuse_any_blocked vault ancestors

abbrev pub content_of : NodeType → Version → Option Str × Option ℕ
content_of file v = (some v.sha256, some v.size)
content_of folder v = (none, none)

abbrev pub with_version : Version → Str → ℕ → NodeType → Node → Node
with_version v mtime rev type n = record n {
  deleted_at = none;
  sha256 = (content_of type v).0;
  size = (content_of type v).1;
  rev = rev;
  mtime = mtime;
}

abbrev pub version_at : Str → Str → ℕ → Tables → Option Version
version_at vault node rev t =
    one_where (λ (v : Version). is_version_of vault node v && v.rev == rev) t.versions

abbrev pub restored_item : Version → Str → Str → PutItem
restored_item v mtime user = record {
  sha256 = v.sha256;
  size = v.size;
  mtime = mtime;
  author_id = user;
}

-- `iso` is the text of a time.
module _ (new_id : Tables → Str) (iso : ℕ → Str) (now : ℕ) (vault : Str) where
  unfoldable pub lift_all : List Node → Tx (List Str)
  lift_all [] = pure []
  lift_all (a ∷ ancestors) = do
    rev ← take_rev vault
    modify (update_node vault a.id (with_deletion none rev))
    journal now vault rev a.id put none
    fan_out new_id now (event_at vault a undeleted)
    lifted ← lift_all ancestors
    pure (a.id ∷ lifted)

  unfoldable pub restore_content : Node → Version → Str → ℕ → Tx (Unit {0})
  restore_content n v user rev = do
    add_version (version_row now vault n.id rev v.sha256 v.size user)
    modify (claim_blob user v.sha256)
    fan_out new_id now (event_at vault n (written (restored_item v (iso now) user)))

  unfoldable pub write_restored : Str → Node → Version → Str → List Str → Tx (ℕ × List Str)
  write_restored node n v user lifted = do
    rev ← take_rev vault
    modify (update_node vault node (with_version v (iso now) rev n.type))
    journal now vault rev node put none
    fan_out new_id now (event_at vault n undeleted)
    when (is_file n.type) (restore_content n v user rev)
    pure (rev, lifted)

  -- The names are checked all the way up before anything is lifted.
  unfoldable pub lift_and_write : Str → Node → Version → Str → List Node → Tx (ℕ × List Str)
  lift_and_write node n v user ancestors = do
    refuse_any_blocked vault ancestors
    blocked ← gets (blocking_sibling vault n)
    refuse_blocked blocked
    lifted ← lift_all ancestors
    write_restored node n v user lifted

  unfoldable pub restore_node : Str → ℕ → Tx (ℕ × List Str)
  restore_node node version_rev = do
    access ← gets (λ t. owner_and_frozen t vault)
    user ← writable access
    row ← gets (λ t. one_where (is_node vault node) t.nodes)
    n ← or_refuse row not_found
    version ← gets (version_at vault node version_rev)
    v ← or_refuse version no_such_version
    ancestors ← gets (deleted_ancestors vault n)
    lift_and_write node n v user ancestors
