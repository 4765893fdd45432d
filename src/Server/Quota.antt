-- ===== src/Server/Quota.antt =====
-- server/src/quota.ts and server/src/account.ts: what an account holds, what it may hold, and who
-- owns a vault.
pub mod Growth
use obsidian_syncserver.Prelude.{
  ℕ, ◌+◌, ◌≤◌, Bool, true, false, not, ◌&&◌, Option, none, some, List, [], ◌∷◌, Str, ◌==◌, any,
  str_eq, leb, if◌then◌else◌,
}
use mathlib.Core.Option
use obsidian_syncserver.Server.Store.{
  User, Vault, Claim, Blob, Tables, is_null, one_where, update_where,
}
use obsidian_syncserver.Server.Holdings.{is_claim}

pub record Usage : Type 0 where
  pub used : ℕ
  pub quota : ℕ

abbrev pub size_or_zero : Option Blob → ℕ
size_or_zero none = 0
size_or_zero (some b) = b.size

-- The joined blob's size; SUM passes over a NULL.
abbrev pub size_at : List Blob → Str → ℕ
size_at blobs sha256 = size_or_zero (one_where (λ (b : Blob). b.sha256 == sha256) blobs)

abbrev pub sum_held : List Blob → Str → List Claim → ℕ
sum_held blobs user [] = 0
sum_held blobs user (ub ∷ claims) =
    let rest = sum_held blobs user claims in
    if ub.user_id == user then size_at blobs ub.sha256 + rest else rest

abbrev pub used_by : Tables → Str → ℕ
used_by t user = sum_held t.blobs user t.user_blobs

abbrev pub user_at : Tables → Str → Option User
user_at t user = one_where (λ (u : User). u.id == user) t.users

abbrev pub already_held : Tables → Str → Str → Bool
already_held t user sha256 = any (is_claim user sha256) t.user_blobs

unfoldable pub usage_of : Tables → Str → Option Usage
usage_of t user =
    Option.map (λ (u : User). record { used = used_by t user; quota = u.quota_bytes })
      (user_at t user)

abbrev pub growth : Tables → Str → Str → ℕ → ℕ
growth t user sha256 size = if already_held t user sha256 then 0 else size

abbrev pub fits_usage : ℕ → Option Usage → Bool
fits_usage more none = false
fits_usage more (some usage) = leb (usage.used + more) usage.quota

unfoldable pub fits : Tables → Str → Str → ℕ → Bool
fits t user sha256 size = fits_usage (growth t user sha256 size) (usage_of t user)

abbrev pub over : Option Usage → Bool
over none = false
over (some usage) = not (leb usage.used usage.quota)

abbrev pub freeze : ℕ → User → User
freeze now u = record u { frozen_at = some now }

unfoldable pub freeze_if_over_quota : ℕ → Str → Tables → Tables × Bool
freeze_if_over_quota now user t =
    if over (usage_of t user)
    then (
      record t {
        users =
            update_where (λ (u : User). u.id == user && is_null u.frozen_at) (freeze now) t.users;
      },
      true,
    )
    else (t, false)

unfoldable pub owns_vault : Tables → Str → Str → Bool
owns_vault t user vault = any (λ (va : Vault). va.id == vault && va.user_id == user) t.vaults

pub record Owner : Type 0 where
  pub user_id : Str
  pub head_rev : ℕ

abbrev pub vault_at : Tables → Str → Option Vault
vault_at t vault = one_where (λ (va : Vault). va.id == vault) t.vaults

unfoldable pub owner_of_vault : Tables → Str → Option Owner
owner_of_vault t vault =
    Option.map (λ (va : Vault). record { user_id = va.user_id; head_rev = va.head_rev })
      (vault_at t vault)

pub data OwnerAccess : Type 0 where
  not_found : OwnerAccess
  frozen : Str → OwnerAccess
  ok : Str → OwnerAccess

abbrev pub access_of : Option User → OwnerAccess
access_of none = not_found
access_of (some u) = if is_null u.frozen_at then ok u.id else frozen u.id

abbrev pub access_to : Tables → Option Vault → OwnerAccess
access_to t none = not_found
access_to t (some va) = access_of (user_at t va.user_id)

unfoldable pub owner_and_frozen : Tables → Str → OwnerAccess
owner_and_frozen t vault = access_to t (vault_at t vault)

abbrev pub has_frozen : Option User → Bool
has_frozen none = false
has_frozen (some u) = not (is_null u.frozen_at)

unfoldable pub is_frozen : Tables → Str → Bool
is_frozen t user = has_frozen (user_at t user)
