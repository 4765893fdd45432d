-- ===== src/Server/Propagate/OnNodes.antt =====
-- The statements of server/src/holdings.ts, revision.ts and quota.ts that leave the nodes alone.
use obsidian_syncserver.Prelude.{
  ℕ, subst⁻¹, inl, inr, Option, none, some, List, Str, codes, any, not_failed, str_eq, nat_eq,
  Bool-cases,
}
use obsidian_syncserver.Server.Store.{Node, Version, JournalOp, Tables}
use obsidian_syncserver.Server.Holdings.{
  next_rev, advanced, with_head, journal_entry, record_version, claim_blob, bind_blob,
}
use obsidian_syncserver.Server.Quota.{freeze_if_over_quota, over, usage_of}
use obsidian_syncserver.Server.Material.{Material, write_material}
use obsidian_syncserver.Server.Tx.{modify}
use obsidian_syncserver.Server.Tx.Rules.{After, Keeps, Ends-attempt}
use obsidian_syncserver.Server.Replica.{taken, rev_of, take_rev, journal, add_version}
use obsidian_syncserver.Server.Propagate.{freeze_over}

-- What a property of the nodes alone survives.
module _ (Q : List Node → Type 0) where
  pub OnNodes-take_rev : (vault : Str) → Keeps (λ t. Q t.nodes) (take_rev vault)
  unfolding next_rev
  OnNodes-take_rev vault = record { end = λ t q. go t (advanced vault t) _ q }
    where
      go :
          (t s : Tables) (o : Option ℕ)
          → Q s.nodes
          → After (λ rev t. Q t.nodes) (rev_of t (with_head s o))
      go t s none q = tt
      go t s (some rev) q = q

  pub OnNodes-journal :
      (now : ℕ) (vault : Str) (rev : ℕ) (node : Str) (op : JournalOp) (prev : Option Str)
      → Keeps (λ t. Q t.nodes) (journal now vault rev node op prev)
  unfolding journal_entry
  OnNodes-journal now vault rev node op prev =
      Ends-attempt (taken (codes "journal_pkey")) (journal_entry vault rev node op prev now)
        (λ t s q e. subst⁻¹ (λ (r : Tables). Q r.nodes) (not_failed (any _ t.journal) _ s e) q)

  pub OnNodes-add_version : (v : Version) → Keeps (λ t. Q t.nodes) (add_version v)
  unfolding record_version
  OnNodes-add_version v =
      Ends-attempt (taken (codes "versions_pkey")) (record_version v)
        (λ t s q e. subst⁻¹ (λ (r : Tables). Q r.nodes) (not_failed (any _ t.versions) _ s e) q)

  pub OnNodes-claim_blob :
      (user sha256 : Str) → Keeps (λ t. Q t.nodes) (modify (claim_blob user sha256))
  unfolding claim_blob
  OnNodes-claim_blob user sha256 = record { end = λ t q. q }

  pub OnNodes-bind_blob :
      (user sha256 : Str) → Keeps (λ t. Q t.nodes) (modify (bind_blob user sha256))
  unfolding bind_blob
  OnNodes-bind_blob user sha256 = record { end = λ t q. q }

  pub OnNodes-write_material : (m : Material) → Keeps (λ t. Q t.nodes) (modify (write_material m))
  unfolding write_material
  OnNodes-write_material m = record { end = λ t q. q }

  pub OnNodes-freeze_over :
      (now : ℕ) (user : Str) → Keeps (λ t. Q t.nodes) (modify (freeze_over now user))
  unfolding freeze_if_over_quota
  OnNodes-freeze_over now user = record {
    end = λ t q. elim (Bool-cases (over (usage_of t user))) [
      | inl h ↦ rw (h, After, modify, freeze_over, freeze_if_over_quota) q
      | inr h ↦ rw (h, After, modify, freeze_over, freeze_if_over_quota) q
    ];
  }
