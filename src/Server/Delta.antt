-- ===== src/Server/Delta.antt =====
-- server/src/delta/service.ts, the cursor of server/src/delta/cursor.ts and the handler of
-- `GET /vaults/:vaultId/delta` in server/src/delta/routes.ts. The account states that ride on an
-- answer (`events`) are left out.
pub mod Answer
pub mod Ascending
pub mod Cursor
pub mod Cuts
pub mod Device
pub mod Latest
pub mod Listing
pub mod Pages
pub mod Series
pub mod Steady
use obsidian_syncserver.Prelude.{
  ℕ, suc, ◌+◌, min, Bool, true, false, not, ◌&&◌, ◌||◌, Option, none, some, List, [], ◌∷◌, Str,
  ◌==◌, map, take, filter, length, any, ltb, leb, nat_beq, sort_by, contains, text_leb, str_eq,
  nat_eq, if◌then◌else◌,
}
use obsidian_syncserver.Server.Store.{
  JournalOp, put, JournalRow, Node, SealedName, Vault, Version, Tables, is_null, one_where,
}
use obsidian_syncserver.Server.Quota.{owns_vault, vault_at}
use obsidian_syncserver.Server.Replica.{is_node}

-- A row as the queries select it, with the numbers that `toChange` makes of its texts.
pub record ChangeRow : Type 0 where
  pub node_id : Str
  pub parent_id : Option Str
  pub name : Option SealedName
  pub op : JournalOp
  pub rev : ℕ
  pub sha256 : Option Str
  pub size : Option ℕ
  pub mtime : Str
  pub share_id : Option Str
  pub author_id : Option Str

pub record VaultPosition : Type 0 where
  pub head_rev : ℕ
  pub reset_epoch : ℕ
  pub restore_epoch : ℕ
  pub oldest_journal_rev : Option ℕ

abbrev pub least : ℕ → Option ℕ → ℕ
least rev none = rev
least rev (some other) = min rev other

-- `SELECT min(rev) FROM journal WHERE vault_id = v.id`
unfoldable pub min_rev : Str → List JournalRow → Option ℕ
min_rev vault [] = none
min_rev vault (j ∷ journal) =
    let rest = min_rev vault journal in
    if j.vault_id == vault then some (least j.rev rest) else rest

abbrev pub position_of : Tables → Option Vault → Option VaultPosition
position_of t none = none
position_of t (some va) = some (record {
  head_rev = va.head_rev;
  reset_epoch = va.reset_epoch;
  restore_epoch = t.restore_epoch;
  oldest_journal_rev = min_rev va.id t.journal;
})

unfoldable pub read_position : Str → Tables → Option VaultPosition
read_position vault t = position_of t (vault_at t vault)

pub record CursorPayload : Type 0 where
  pub v : ℕ
  pub uid : Str
  pub vid : Str
  pub restore : ℕ
  pub reset : ℕ
  pub rev : ℕ
  pub hwm : Option ℕ

pub data CursorRejection : Type 0 where
  restored : CursorRejection
  reset_since : CursorRejection
  journal_ttl : CursorRejection

abbrev pub is_beyond : ℕ → Option ℕ → Bool
is_beyond rev none = false
is_beyond rev (some oldest) = ltb (rev + 1) oldest

unfoldable pub rejection_for : CursorPayload → VaultPosition → Option CursorRejection
rejection_for cursor at =
    if not (nat_beq cursor.restore at.restore_epoch)
    then some restored
    else if not (nat_beq cursor.reset at.reset_epoch)
    then some reset_since
    else if is_beyond cursor.rev at.oldest_journal_rev
    then some journal_ttl
    else none

-- `l` is a later row of the node of `j` inside the snapshot.
abbrev pub is_later : ℕ → JournalRow → JournalRow → Bool
is_later up_to j l =
    l.vault_id == j.vault_id && l.node_id == j.node_id && ltb j.rev l.rev && leb l.rev up_to

abbrev pub is_latest : Tables → Str → ℕ → JournalRow → Bool
is_latest t vault up_to j =
    any (is_node j.vault_id j.node_id) t.nodes
    && j.vault_id == vault
    && leb j.rev up_to
    && not (any (is_later up_to j) t.journal)

abbrev pub after : ℕ → JournalRow → Bool
after rev j = ltb rev j.rev

abbrev pub by_rev : JournalRow → JournalRow → Bool
by_rev j l = leb j.rev l.rev

-- The rows of the query before its LIMIT: those whose node is there, in the order of revision.
unfoldable pub rows_between : Tables → Str → ℕ → ℕ → List JournalRow
rows_between t vault from up_to =
    sort_by by_rev (filter (after from) (filter (is_latest t vault up_to) t.journal))

abbrev pub author_of : Option Version → Option Str
author_of none = none
author_of (some ve) = some ve.author_id

abbrev pub written_at : Str → Str → ℕ → Version → Bool
written_at vault node rev ve = ve.vault_id == vault && ve.node_id == node && ve.rev == rev

-- What the join selects; a row without its node is not joined.
abbrev pub change_with : Tables → JournalRow → Option Node → ChangeRow
change_with t j none = record {
  node_id = j.node_id;
  parent_id = none;
  name = none;
  op = j.op;
  rev = j.rev;
  sha256 = none;
  size = none;
  mtime = [];
  share_id = none;
  author_id = none;
}
change_with t j (some n) = record {
  node_id = j.node_id;
  parent_id = n.parent_id;
  name = n.name;
  op = j.op;
  rev = j.rev;
  sha256 = n.sha256;
  size = n.size;
  mtime = n.mtime;
  share_id = n.share_id;
  author_id = author_of (one_where (written_at j.vault_id j.node_id j.node_rev) t.versions);
}

abbrev pub change_of : Tables → JournalRow → ChangeRow
change_of t j = change_with t j (one_where (is_node j.vault_id j.node_id) t.nodes)

unfoldable pub read_changes : Tables → Str → ℕ → ℕ → ℕ → List ChangeRow
read_changes t vault from up_to limit =
    map (change_of t) (take limit (rows_between t vault from up_to))

-- `Number(req.query.limit ?? MAX_LIMIT)`, where it is an integer; `minus n` is -(n + 1).
pub data Whole : Type 0 where
  natural : ℕ → Whole
  minus : ℕ → Whole

abbrev pub max_limit : ℕ
max_limit = 500

abbrev pub limit_of : Option Whole → Whole
limit_of none = natural max_limit
limit_of (some (natural n)) = natural (if nat_beq n 0 then max_limit else min n max_limit)
limit_of (some (minus n)) = minus n

pub record Page : Type 0 where
  pub changes : List ChangeRow
  pub next_cursor : CursorPayload
  pub has_more : Bool

abbrev pub bound : CursorPayload → VaultPosition → ℕ
bound cursor at = bound_or cursor.hwm
  where
    bound_or : Option ℕ → ℕ
    bound_or none = at.head_rev
    bound_or (some hwm) = hwm

abbrev pub cursor_at : Str → Str → VaultPosition → ℕ → Option ℕ → CursorPayload
cursor_at user vault at rev hwm = record {
  v = 1;
  uid = user;
  vid = vault;
  restore = at.restore_epoch;
  reset = at.reset_epoch;
  rev = rev;
  hwm = hwm;
}

-- The revision of the last row, or the number given where there is none.
unfoldable pub last_rev : {A : Type 0} → (A → ℕ) → ℕ → List A → ℕ
last_rev rev otherwise [] = otherwise
last_rev rev otherwise (x ∷ xs) = last_rev rev (rev x) xs

-- One answer, for a limit from one on.
unfoldable pub delta_page : Tables → Str → Str → VaultPosition → CursorPayload → ℕ → Page
delta_page t user vault at cursor limit =
    let hwm = bound cursor at in
    let changes = read_changes t vault cursor.rev hwm (suc limit) in
    if ltb limit (length changes)
    then record {
      changes = take limit changes;
      next_cursor =
          cursor_at user vault at (last_rev (λ (c : ChangeRow). c.rev) hwm (take limit changes))
            (some hwm);
      has_more = true;
    }
    else record {
      changes = changes;
      next_cursor = cursor_at user vault at hwm none;
      has_more = false;
    }
