-- ===== src/Plugin/Rename/Source.antt =====
-- When a new file is taken for a rename of a vanished one.
use obsidian_syncserver.Prelude.{
  Bool, true, ◌||◌, refl, ap, ◌∙◌, ◌≡◌, ◌⊎◌, ◌↔◌, ◌≤◌, inl, inr, Option, none, some, List, [], ◌∷◌,
  Dict, lookup, has, arith, str_beq_iff, Bool-cases,
}
use mathlib.Core.Bool.{false≢true}
use obsidian_syncserver.Plugin.Rename.{
  Vanished, TreeNode, FileMeta, rename_source_for, still_there, same_node, only_candidate,
}

-- The node that vanished here is still alive on the server: at its path, or elsewhere by its id.
abbrev pub IsLive {ℓ} : {N : Type ℓ} → Vanished → Dict TreeNode → Dict N → Type 0
IsLive v tree by_node_id =
    ((n : TreeNode) × (lookup v.path tree ≡ some n) × (n.node_id ≡ v.node_id))
    ⊎ (has v.node_id by_node_id ≡ true)

only_candidate_iff :
    (o : Option (List Vanished)) (v : Vanished) → (only_candidate o ≡ some v) ↔ (o ≡ some (v ∷ []))
only_candidate_iff none v = ground arith
only_candidate_iff (some []) v = ground arith
only_candidate_iff (some (w ∷ [])) v = ground arith
only_candidate_iff (some (w ∷ x ∷ l)) v = ground arith

some_inj : {n m : TreeNode} → some n ≡ some m → n ≡ m
some_inj e = cc

same_node_iff :
    (o : Option TreeNode) (v : Vanished)
    → (same_node o v ≡ true) ↔ ((n : TreeNode) × (o ≡ some n) × (n.node_id ≡ v.node_id))
same_node_iff none v = (λ h. absurd (false≢true h), λ h. cc (h.1))
same_node_iff (some n) v = (
  λ h. (n, refl, (str_beq_iff n.node_id v.node_id).0 h),
  λ h. (str_beq_iff n.node_id v.node_id).1 (ap (λ (m : TreeNode). m.node_id) (some_inj h.1) ∙ h.2),
)

module _ {ℓ} {N : Type ℓ} (v : Vanished) (tree : Dict TreeNode) (by_node_id : Dict N) where
  abbrev alive : Bool
  alive = still_there v tree || has v.node_id by_node_id

  alive_iff : (alive ≡ true) ↔ IsLive v tree by_node_id
  alive_iff = (
    elim (Bool-cases (still_there v tree)) [
      | inl t ↦ λ h. inl ((same_node_iff (lookup v.path tree) v).0 t)
      | inr f ↦ λ h. inr (rw f at h)
    ],
    λ l. elim l [ inl n ↦ rw ((same_node_iff (lookup v.path tree) v).1 n) | inr h ↦ ground arith ],
  )

-- A vanished file is the source of this one exactly when the file has at least 512 bytes, the
-- vanished file is the only one with its plaintext hash, and its node is still alive.
pub rename_source_for_iff {ℓ} :
    {N : Type ℓ} (meta : FileMeta) (vanished : Dict (List Vanished)) (tree : Dict TreeNode)
    (by_node_id : Dict N) (v : Vanished)
    → (rename_source_for meta vanished tree by_node_id ≡ some v) ↔ (
        (512 ≤ meta.size)
        × (lookup meta.plain_hash vanished ≡ some (v ∷ []))
        × IsLive v tree by_node_id)
unfolding rename_source_for
rename_source_for_iff meta vanished tree by_node_id v = (
  λ h. (
    ground arith,
    (only_candidate_iff (lookup meta.plain_hash vanished) v).0 (ground arith),
    (alive_iff v tree by_node_id).0 (ground arith),
  ),
  λ h.
      let c = (only_candidate_iff (lookup meta.plain_hash vanished) v).1 h.1 in
      let a = (alive_iff v tree by_node_id).1 h.2 in ground arith,
)
