-- ===== src/Server/Holdings.antt =====
-- server/src/holdings.ts and server/src/revision.ts: an account's claims on bytes, the version rows,
-- and where a revision is born.
pub mod Claims
use obsidian_syncserver.Prelude.{
  ℕ, ◌+◌, ◌-◌, Bool, true, false, not, ◌&&◌, Option, none, some, List, [], ◌∷◌, ◌++◌, Str, ◌==◌,
  filter, any, str_eq, nat_eq, nat_beq, if◌then◌else◌,
}
use obsidian_syncserver.Server.Store.{
  Claim, Vault, Version, JournalOp, JournalRow, Tables, one_where, update_where,
}
use obsidian_syncserver.Server.Retention.{live_node_holds, version_holds}

-- The primary key of `user_blobs`.
abbrev pub is_claim : Str → Str → Claim → Bool
is_claim user sha256 ub = ub.user_id == user && ub.sha256 == sha256

abbrev pub fresh_claim : Str → Str → Claim
fresh_claim user sha256 = record {
  user_id = user;
  sha256 = sha256;
  refs_own = 1;
  refs_pending = 0;
  pending_since = none;
  pending_device_id = none;
}

-- `INSERT ... ON CONFLICT (user_id, sha256) DO UPDATE SET f`
unfoldable pub insert_or_update : Str → Str → (Claim → Claim) → List Claim → List Claim
insert_or_update user sha256 f claims =
    if any (is_claim user sha256) claims
    then update_where (is_claim user sha256) f claims
    else claims ++ (fresh_claim user sha256 ∷ [])

abbrev pub one_more : Claim → Claim
one_more ub = record ub { refs_own = ub.refs_own + 1 }

unfoldable pub claim_blob : Str → Str → Tables → Tables
claim_blob user sha256 t = record t {
  user_blobs = insert_or_update user sha256 one_more t.user_blobs;
}

abbrev pub since_after : ℕ → Option ℕ → Option ℕ
since_after pending since = if nat_beq pending 0 then none else since

-- `GREATEST(refs_pending - 1, 0)` is the subtraction that stops at 0.
abbrev pub settle_one : Claim → Claim
settle_one ub = record ub {
  refs_own = ub.refs_own + 1;
  refs_pending = ub.refs_pending - 1;
  pending_since = since_after (ub.refs_pending - 1) ub.pending_since;
}

unfoldable pub bind_blob : Str → Str → Tables → Tables
bind_blob user sha256 t = record t {
  user_blobs = insert_or_update user sha256 settle_one t.user_blobs;
}

abbrev pub is_unreferenced : Tables → Str → Claim → Bool
is_unreferenced t user ub =
    ub.user_id == user
    && not (live_node_holds t user ub.sha256)
    && not (version_holds t user ub.sha256)
    && nat_beq ub.refs_pending 0

unfoldable pub drop_unreferenced : Str → Tables → Tables
drop_unreferenced user t = record t {
  user_blobs = filter (λ ub. not (is_unreferenced t user ub)) t.user_blobs;
}

-- A collision with the primary key fails.
unfoldable pub record_version : Version → Tables → Option Tables
record_version v t =
    if any (λ (w : Version). w.vault_id == v.vault_id && w.node_id == v.node_id && w.rev == v.rev)
      t.versions
    then none
    else some (record t { versions = t.versions ++ (v ∷ []) })

abbrev pub next_head : Vault → Vault
next_head va = record va { head_rev = va.head_rev + 1 }

abbrev pub head_of : Option Vault → Option ℕ
head_of none = none
head_of (some va) = some va.head_rev

-- `UPDATE vaults SET head_rev = head_rev + 1 WHERE id = $1`
abbrev pub advanced : Str → Tables → Tables
advanced vault t = record t {
  vaults = update_where (λ (va : Vault). va.id == vault) next_head t.vaults;
}

abbrev pub with_head : Tables → Option ℕ → Option (ℕ × Tables)
with_head t none = none
with_head t (some head) = some (head, t)

-- Where no vault is updated, reading the returned row is an exception.
unfoldable pub next_rev : Str → Tables → Option (ℕ × Tables)
next_rev vault t =
    let t' = advanced vault t in
    with_head t' (head_of (one_where (λ (va : Vault). va.id == vault) t'.vaults))

-- The journal's primary key is (vault, revision).
unfoldable pub journal_entry : Str → ℕ → Str → JournalOp → Option Str → ℕ → Tables → Option Tables
journal_entry vault rev node op prev_parent now t =
    if any (λ (j : JournalRow). j.vault_id == vault && j.rev == rev) t.journal
    then none
    else some (record t {
      journal =
          t.journal
          ++ (record {
            vault_id = vault;
            rev = rev;
            node_id = node;
            prev_parent_id = prev_parent;
            op = op;
            node_rev = rev;
            at = now;
          }
              ∷ []);
    })
