-- ===== src/Server/Refusal.antt =====
-- server/src/refusal.ts: every way a write can be refused, and what a refusal of the database means.
-- The fields of a database error are those of the driver's error object.
use obsidian_syncserver.Prelude.{
  ℕ, not, ◌&&◌, Option, none, some, List, Str, codes, ◌==◌, str_eq, option_eq, if◌then◌else◌,
}

-- shared/src/index.ts: what a node of a share still lacks.
pub data Missing : Type 0 where
  name : Missing
  content : Missing

pub record PreparationGap : Type 0 where
  pub node_id : Str
  pub missing : Missing

pub data Refusal : Type 0 where
  not_found : Refusal
  no_such_version : Refusal
  device_revoked : Refusal
  frozen : Refusal
  over_quota : Refusal
  too_large : Refusal
  part_too_large : Refusal
  too_many_unfinished : Refusal
  address_mismatch : Refusal
  size_mismatch : Refusal
  share_boundary : Refusal
  folder_not_empty : Refusal
  base_mismatch : Option Str → ℕ → Refusal
  rev_mismatch : ℕ → Refusal
  name_taken : Option Str → Refusal
  rate_limited : ℕ → Refusal
  parts_missing : List ℕ → Refusal
  invalid_write : Str → Refusal
  already_settled : Refusal
  not_approved : Refusal
  named_by_a_share : Refusal
  vault_exists : Refusal
  share_not_preparing : Str → Refusal
  share_not_active : Str → Refusal
  share_not_prepared : List PreparationGap → Refusal
  invite_failed : Refusal
  console_account : Refusal
  initiator_cannot_be_removed : Refusal
  finalization_incomplete : List Str → Refusal

pub record DbError : Type 0 where
  pub code : Str
  pub constraint : Option Str
  pub hint : Option Str
  pub message : Option Str

abbrev pub check_violation : Str
check_violation = codes "23514"

abbrev pub restrict_violation : Str
restrict_violation = codes "23001"

abbrev pub frozen_hint : Str
frozen_hint = codes "frozen"

abbrev pub unique_violation : Str
unique_violation = codes "23505"

abbrev pub sibling_names : Str
sibling_names = codes "nodes_unique_sibling"

abbrev pub detail_of : Option Str → Str
detail_of none = codes "the write violates a schema rule"
detail_of (some message) = message

unfoldable pub refusal_from_database : DbError → Option Refusal
refusal_from_database e =
    if e.code == unique_violation && e.constraint == some sibling_names
    then some (name_taken none)
    else if not (e.code == check_violation) && not (e.code == restrict_violation)
    then none
    else if e.code == restrict_violation && e.hint == some frozen_hint
    then some frozen
    else some (invalid_write (detail_of e.message))
