-- ===== src/Server/Retention/Spent.antt =====
-- The claims that server/src/retention.ts drops: those of which the account holds nothing.
use obsidian_syncserver.Prelude.{
  ◌≡◌, ◌≢◌, ◌↔◌, ◌⊎◌, inl, inr, Bool, true, not, ◌&&◌, none, some, Elem, Str, any_found, any_of,
  filter-Elem, Elem-filter, str_eq, str_beq_iff, nat_beq_iff, ◌==◌, arith,
}
use obsidian_syncserver.Server.Store.{
  Vault, Node, Version, Claim, Tables, equals, is_null, in_vault_of,
}
use obsidian_syncserver.Server.Store.Rows.{is_null_iff}
use obsidian_syncserver.Server.Retention.{spent, live_node_holds, version_holds, drop_spent_claims}
use obsidian_syncserver.Server.Retention.Marking.{equals_iff}

-- The vault is one of the account's.
abbrev pub InVaultOf : Tables → Str → Str → Type 0
InVaultOf t user vault = (va : Vault) × Elem va t.vaults × (va.id ≡ vault) × (va.user_id ≡ user)

-- A node of the account that is not in the trash, and a version of the account, with these bytes.
abbrev pub LiveNodeHolds : Tables → Str → Str → Type 0
LiveNodeHolds t user sha256 =
    (n : Node) × Elem n t.nodes
    × (n.deleted_at ≡ none)
    × (n.sha256 ≡ some sha256)
    × InVaultOf t user n.vault_id

abbrev pub VersionHolds : Tables → Str → Str → Type 0
VersionHolds t user sha256 =
    (v : Version) × Elem v t.versions × (v.sha256 ≡ sha256) × InVaultOf t user v.vault_id

in_vault_of_iff :
    (t : Tables) (user vault : Str) → (in_vault_of t user vault ≡ true) ↔ InVaultOf t user vault
in_vault_of_iff t user vault = (
  λ h.
      let (va, m, e) =
        any_found (λ (va : Vault). va.id == vault && va.user_id == user) t.vaults h in
      (
        va,
        m,
        (str_beq_iff va.id vault).0 (ground arith),
        (str_beq_iff va.user_id user).0 (ground arith),
      ),
  λ (va, m, e1, e2).
      any_of (λ (va : Vault). va.id == vault && va.user_id == user) t.vaults va m
        (ground (arith, str_beq_iff va.id vault, str_beq_iff va.user_id user)),
)

live_node_holds_iff :
    (t : Tables) (user sha256 : Str)
    → (live_node_holds t user sha256 ≡ true) ↔ LiveNodeHolds t user sha256
live_node_holds_iff t user sha256 = (
  λ h.
      let (n, m, e) = any_found hit t.nodes h in
      (
        n,
        m,
        (is_null_iff n.deleted_at).0 (ground arith),
        (equals_iff n.sha256 sha256).0 (ground arith),
        (in_vault_of_iff t user n.vault_id).0 (ground arith),
      ),
  λ (n, m, live, e, v). any_of hit t.nodes n m (
      ground (
        arith,
        (is_null_iff n.deleted_at).1 live,
        (equals_iff n.sha256 sha256).1 e,
        (in_vault_of_iff t user n.vault_id).1 v,
      )),
)
  where
    hit : Node → Bool
    hit n = in_vault_of t user n.vault_id && equals n.sha256 sha256 && is_null n.deleted_at

version_holds_iff :
    (t : Tables) (user sha256 : Str)
    → (version_holds t user sha256 ≡ true) ↔ VersionHolds t user sha256
version_holds_iff t user sha256 = (
  λ h.
      let (v, m, e) =
        any_found (λ (v : Version). in_vault_of t user v.vault_id && v.sha256 == sha256) t.versions
          h in
      (
        v,
        m,
        (str_beq_iff v.sha256 sha256).0 (ground arith),
        (in_vault_of_iff t user v.vault_id).0 (ground arith),
      ),
  λ (v, m, e, o).
      any_of (λ (v : Version). in_vault_of t user v.vault_id && v.sha256 == sha256) t.versions v m
        (ground
          (arith, (str_beq_iff v.sha256 sha256).1 e, (in_vault_of_iff t user v.vault_id).1 o)),
)

-- A claim outlives the drop exactly where an upload of it is pending, a live node in a vault of its
-- account names its bytes, or a version in such a vault does.
pub drop_spent_claims_iff :
    (t : Tables) (ub : Claim)
    → Elem ub t.user_blobs
    → Elem ub ((drop_spent_claims t).0).user_blobs ↔ (
        (ub.refs_pending ≢ 0)
        ⊎ LiveNodeHolds t ub.user_id ub.sha256
        ⊎ VersionHolds t ub.user_id ub.sha256)
unfolding drop_spent_claims
drop_spent_claims_iff t ub m = (
  λ kept.
      let (i, h) = filter-Elem (λ r. not (spent t r)) ub t.user_blobs kept in
      elim (not_spent.0 h) [
        | inl p ↦ inl p
        | inr (inl n) ↦ inr (inl ((live_node_holds_iff t ub.user_id ub.sha256).0 n))
        | inr (inr v) ↦ inr (inr ((version_holds_iff t ub.user_id ub.sha256).0 v))
      ],
  λ why. Elem-filter (λ r. not (spent t r)) ub t.user_blobs m (not_spent.1 (reason why)),
)
  where
    not_spent : (not (spent t ub) ≡ true) ↔ (
        (ub.refs_pending ≢ 0)
        ⊎ (live_node_holds t ub.user_id ub.sha256 ≡ true)
        ⊎ (version_holds t ub.user_id ub.sha256 ≡ true))
    not_spent = ground (arith, nat_beq_iff ub.refs_pending 0)

    reason :
        (ub.refs_pending ≢ 0)
          ⊎ LiveNodeHolds t ub.user_id ub.sha256
          ⊎ VersionHolds t ub.user_id ub.sha256
        → (ub.refs_pending ≢ 0)
          ⊎ (live_node_holds t ub.user_id ub.sha256 ≡ true)
          ⊎ (version_holds t ub.user_id ub.sha256 ≡ true)
    reason (inl p) = inl p
    reason (inr (inl n)) = inr (inl ((live_node_holds_iff t ub.user_id ub.sha256).1 n))
    reason (inr (inr v)) = inr (inr ((version_holds_iff t ub.user_id ub.sha256).1 v))
