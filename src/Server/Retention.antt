-- ===== src/Server/Retention.antt =====
-- server/src/retention.ts: what history is kept, and what stops being held. `day_of` and `week_of`
-- are date_trunc('day', at) and date_trunc('week', at) of the database's session.
pub mod Ladder
pub mod Marking
pub mod Spent
pub mod Trash
use obsidian_syncserver.Prelude.{
  ℕ, ◌+◌, ◌-◌, ◌*◌, Bool, true, false, not, ◌&&◌, ◌||◌, Option, none, some, List, Str, ◌==◌, filter,
  length, map, any, all, str_eq, nat_eq, ltb, leb, nat_beq, if◌then◌else◌,
}
use obsidian_syncserver.Server.Remove.{Doomed, depth_of_row, remove_nodes_by_depth}
use obsidian_syncserver.Server.Store.{
  User, Vault, Node, Version, Claim, Blob, Tables, is_null, equals, one_where, delete_where,
  update_where, day_span, in_vault_of,
}

abbrev pub same_node : Version → Version → Bool
same_node v w = w.vault_id == v.vault_id && w.node_id == v.node_id

-- `v.rev = max(v.rev)`, and `row_number() = 1` by falling revision, over the rows of the same node
-- in `same`: no row there has a greater revision, and no two have the same.
abbrev pub newest_in : (Version → Bool) → Version → List Version → Bool
newest_in same v versions =
    all (λ (w : Version). not (same_node v w && same w) || leb w.rev v.rev) versions

-- The three joins of `ranked`.
abbrev pub node_of : Tables → Version → Option Node
node_of t v = one_where (λ (n : Node). n.vault_id == v.vault_id && n.id == v.node_id) t.nodes

abbrev pub vault_of : Tables → Version → Option Vault
vault_of t v = one_where (λ (va : Vault). va.id == v.vault_id) t.vaults

abbrev pub user_of : Tables → Vault → Option User
user_of t va = one_where (λ (u : User). u.id == va.user_id) t.users

abbrev pub is_head : Tables → Node → Version → Bool
is_head t n v = is_null n.deleted_at && newest_in (λ w. true) v t.versions

module _ (day_of week_of : ℕ → ℕ) where
  -- The rows of `ranked` that the statement's conditions pick.
  abbrev pub thinned_row : Tables → ℕ → Version → Node → User → Bool
  thinned_row t now v n u =
      not (is_head t n v)
      && leb (7 * day_span) (now - v.at)
      && not (
          ltb (now - v.at) (30 * day_span)
          && newest_in (λ (w : Version). day_of w.at == day_of v.at) v t.versions)
      && not (
          ltb (now - v.at) (u.history_days * day_span)
          && newest_in (λ (w : Version). week_of w.at == week_of v.at) v t.versions)

  abbrev pub thinned_joined : Tables → ℕ → Version → Option Node → Option User → Bool
  thinned_joined t now v (some n) (some u) = thinned_row t now v n u
  thinned_joined t now v (some n) none = false
  thinned_joined t now v none u = false

  abbrev pub owner_of : Tables → Option Vault → Option User
  owner_of t none = none
  owner_of t (some va) = user_of t va

  abbrev pub thinned : Tables → ℕ → Version → Bool
  thinned t now v = thinned_joined t now v (node_of t v) (owner_of t (vault_of t v))

  unfoldable pub thin_versions : ℕ → Tables → Tables × ℕ
  thin_versions now t =
      let (kept, count) = delete_where (thinned t now) t.versions in
      (record t { versions = kept }, count)

-- Trashed, without a version, and with nothing below it.
abbrev pub is_spent_trash : Tables → Node → Bool
is_spent_trash t n =
    not (is_null n.deleted_at)
    && not (any (λ (v : Version). v.vault_id == n.vault_id && v.node_id == n.id) t.versions)
    && not (
        any (λ (child : Node). child.vault_id == n.vault_id && equals child.parent_id n.id) t.nodes)

abbrev pub doomed_row : Node → Doomed
doomed_row n = record { id = n.id; vault_id = n.vault_id; depth = depth_of_row n }

unfoldable pub remove_spent_trash : Tables → Option (Tables × ℕ)
remove_spent_trash t = remove_nodes_by_depth (map doomed_row (filter (is_spent_trash t) t.nodes)) t

-- NOT EXISTS of a live node, and of a version, of the account with the claim's hash.
abbrev pub live_node_holds : Tables → Str → Str → Bool
live_node_holds t user sha256 =
    any
      (λ (n : Node).
        in_vault_of t user n.vault_id && equals n.sha256 sha256 && is_null n.deleted_at)
      t.nodes

abbrev pub version_holds : Tables → Str → Str → Bool
version_holds t user sha256 =
    any (λ (v : Version). in_vault_of t user v.vault_id && v.sha256 == sha256) t.versions

abbrev pub spent : Tables → Claim → Bool
spent t ub =
    nat_beq ub.refs_pending 0
    && not (live_node_holds t ub.user_id ub.sha256)
    && not (version_holds t ub.user_id ub.sha256)

unfoldable pub drop_spent_claims : Tables → Tables × ℕ
drop_spent_claims t =
    let (kept, count) = delete_where (spent t) t.user_blobs in
    (record t { user_blobs = kept }, count)

-- REFERENCED
abbrev pub referenced : Tables → Blob → Bool
referenced t b =
    any (λ (u : Claim). u.sha256 == b.sha256) t.user_blobs
    || any (λ (n : Node). equals n.sha256 b.sha256) t.nodes
    || any (λ (v : Version). v.sha256 == b.sha256) t.versions

abbrev pub unmark : Blob → Blob
unmark b = record b { gc_marked_at = none }

abbrev pub mark : ℕ → Blob → Blob
mark now b = record b { gc_marked_at = some now }

abbrev pub to_unmark : Tables → Blob → Bool
to_unmark t b = not (is_null b.gc_marked_at) && referenced t b

abbrev pub to_mark : Tables → Blob → Bool
to_mark t b = is_null b.gc_marked_at && not (referenced t b)

pub record Marks : Type 0 where
  pub marked : ℕ
  pub unmarked : ℕ

unfoldable pub mark_unreferenced : ℕ → Tables → Tables × Marks
mark_unreferenced now t =
    let first = update_where (to_unmark t) unmark t.blobs in
    let second = record t { blobs = first } in
    (
      record t { blobs = update_where (to_mark second) (mark now) first },
      record {
        marked = length (filter (to_mark second) first);
        unmarked = length (filter (to_unmark t) t.blobs);
      },
    )
