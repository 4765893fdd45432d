-- ===== src/Server/Quota/Growth.antt =====
-- The growth that server/src/quota.ts asks about is the growth that a claim then brings.
use obsidian_syncserver.Prelude.{
  ℕ, ◌+◌, ◌≤◌, ◌≡◌, refl, inl, inr, Bool, true, some, List, [], ◌∷◌, ◌++◌, Str, any, str_eq, leb→le,
  beq_self, arith, Bool-cases,
}
use obsidian_syncserver.Server.Store.{User, Claim, Blob, Tables, update_where}
use obsidian_syncserver.Server.Holdings.{
  is_claim, fresh_claim, insert_or_update, one_more, settle_one, claim_blob, bind_blob,
}
use obsidian_syncserver.Server.Quota.{size_at, sum_held, used_by, user_at, usage_of, growth, fits}

sum_held-append :
    (blobs : List Blob) (user : Str) (a b : List Claim)
    → sum_held blobs user (a ++ b) ≡ sum_held blobs user a + sum_held blobs user b
sum_held-append blobs user [] b = omega arith
sum_held-append blobs user (ub ∷ a) b = ground (arith, sum_held-append blobs user a b)

-- An update that leaves the key and the owner of its rows leaves the sum.
sum_held-update :
    (blobs : List Blob) (user : Str) (p : Claim → Bool) (f : Claim → Claim) (claims : List Claim)
    → ((ub : Claim) → (f ub).user_id ≡ ub.user_id)
    → ((ub : Claim) → (f ub).sha256 ≡ ub.sha256)
    → sum_held blobs user (update_where p f claims) ≡ sum_held blobs user claims
sum_held-update blobs user p f [] k1 k2 = refl
sum_held-update blobs user p f (ub ∷ claims) k1 k2 = elim (Bool-cases (p ub)) [
  | inl t ↦ rw (t, sum_held, k1 ub, k2 ub, sum_held-update blobs user p f claims k1 k2) refl
  | inr g ↦ rw (g, sum_held, sum_held-update blobs user p f claims k1 k2) refl
]

insert-grows :
    (t : Tables) (user sha256 : Str) (f : Claim → Claim)
    → ((ub : Claim) → (f ub).user_id ≡ ub.user_id)
    → ((ub : Claim) → (f ub).sha256 ≡ ub.sha256)
    → sum_held t.blobs user (insert_or_update user sha256 f t.user_blobs)
      ≡ used_by t user + growth t user sha256 (size_at t.blobs sha256)
unfolding insert_or_update
insert-grows t user sha256 f k1 k2 = elim (Bool-cases (any (is_claim user sha256) t.user_blobs)) [
  | inl h ↦
      rw (h, insert_or_update)
        (omega (arith, sum_held-update t.blobs user (is_claim user sha256) f t.user_blobs k1 k2))
  | inr h ↦
      rw
        (
          h,
          insert_or_update,
          sum_held-append t.blobs user t.user_blobs (fresh_claim user sha256 ∷ []),
          beq_self user,
        )
        (omega arith)
]

-- Claiming bytes for an account, or binding an upload of its own, makes it hold as many bytes more
-- as `fits` counts: their size, or nothing where it holds them already.
pub used_by-claim_blob :
    (t : Tables) (user sha256 : Str)
    → (used_by (claim_blob user sha256 t) user
        ≡ used_by t user + growth t user sha256 (size_at t.blobs sha256))
      × (used_by (bind_blob user sha256 t) user
          ≡ used_by t user + growth t user sha256 (size_at t.blobs sha256))
unfolding claim_blob bind_blob
used_by-claim_blob t user sha256 = (
  insert-grows t user sha256 one_more (λ ub. refl) (λ ub. refl),
  insert-grows t user sha256 settle_one (λ ub. refl) (λ ub. refl),
)

fits-le :
    (t : Tables) (user sha256 : Str) (size : ℕ) (u : User)
    → user_at t user ≡ some u
    → fits t user sha256 size ≡ true
    → used_by t user + growth t user sha256 size ≤ u.quota_bytes
unfolding fits usage_of
fits-le t user sha256 size u e h = leb→le _ u.quota_bytes (rw e at h)

-- An account that binds bytes which fit stays within its quota.
pub fits-bind_blob :
    (t : Tables) (user sha256 : Str) (u : User)
    → user_at t user ≡ some u
    → fits t user sha256 (size_at t.blobs sha256) ≡ true
    → used_by (bind_blob user sha256 t) user ≤ u.quota_bytes
fits-bind_blob t user sha256 u e h = omega (
  arith,
  (used_by-claim_blob t user sha256).1,
  fits-le t user sha256 (size_at t.blobs sha256) u e h,
)
