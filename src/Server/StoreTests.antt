-- ===== src/Server/StoreTests.antt =====
-- The theorems on the server's tables at concrete rows.
use obsidian_syncserver.Prelude.{
  ℕ, ◌+◌, ◌*◌, ◌/◌, ◌≤◌, ◌≡◌, ◌≢◌, refl, ◌↔◌, ◌⊎◌, inl, inr, true, false, Option, none, some, List,
  [], ◌∷◌, Str, codes, str_beq, contains, str_eq, String, ne_of_beq, sym, ap, subst⁻¹, ◌∙◌, ◌<◌,
  Elem, Pairs, All_at, arith,
}
use obsidian_syncserver.Server.Store.{
  User, Vault, Node, Version, Claim, Blob, Tables, day_span, file, folder,
}
use obsidian_syncserver.Server.Retention.{
  thin_versions, drop_spent_claims, mark_unreferenced, remove_spent_trash, doomed_row,
}
use obsidian_syncserver.Server.Retention.Ladder.{Survives, thin_versions-Survives}
use obsidian_syncserver.Server.Retention.Marking.{Named, Settled, mark_unreferenced_lem}
use obsidian_syncserver.Server.Retention.Spent.{LiveNodeHolds, VersionHolds, drop_spent_claims_iff}
use obsidian_syncserver.Server.Retention.Trash.{Spent, RootSpent, remove_spent_trash_lem}
use obsidian_syncserver.Server.Remove.Roots.{RootDoomed}
use obsidian_syncserver.Server.Remove.{Doomed, remove_nodes_by_depth}
use obsidian_syncserver.Server.Remove.Order.{Closed, removed_at_once, remove_nodes_by_depth_lem}
use obsidian_syncserver.Server.Collector.{
  set_before, sweep_condemned, drop_unbound, clear_pending, remove_orphans,
}
use obsidian_syncserver.Server.Collector.Safety.{sweep_condemned_iff, remove_orphans_iff, HasRow}
use obsidian_syncserver.Server.Holdings.{claim_blob, bind_blob, drop_unreferenced}
use obsidian_syncserver.Server.Holdings.Claims.{Checked, AllChecked, claims-AllChecked}
use obsidian_syncserver.Server.Quota.{used_by, growth, size_at, fits, usage_of}
use obsidian_syncserver.Server.Quota.Growth.{used_by-claim_blob, fits-bind_blob}

abbrev pub days : ℕ → ℕ
days n = n * day_span

abbrev pub owner : User
owner = record { id = codes "u"; quota_bytes = 100; frozen_at = none; history_days = 180 }

abbrev pub vault : Vault
vault = record {
  id = codes "v";
  user_id = codes "u";
  root_node_id = codes "r";
  head_rev = 9;
  vault_key_id = codes "vk";
  reset_epoch = 1;
}

abbrev pub note : Node
note = record {
  vault_id = codes "v";
  id = codes "n";
  parent_id = some (codes "r");
  sha256 = some (codes "b2");
  deleted_at = none;
  ancestry = codes "r" ∷ [];
  name = none;
  type = file;
  size = none;
  mtime = [];
  rev = 1;
  share_id = none;
  share_item_id = none;
}

abbrev trashed : Node
trashed = record {
  vault_id = codes "v";
  id = codes "d";
  parent_id = some (codes "e");
  sha256 = some (codes "b3");
  deleted_at = some (days 2);
  ancestry = codes "r" ∷ (codes "e" ∷ []);
  name = none;
  type = file;
  size = none;
  mtime = [];
  rev = 1;
  share_id = none;
  share_item_id = none;
}

abbrev trashed_folder : Node
trashed_folder = record {
  vault_id = codes "v";
  id = codes "e";
  parent_id = some (codes "r");
  sha256 = none;
  deleted_at = some (days 2);
  ancestry = codes "r" ∷ [];
  name = none;
  type = folder;
  size = none;
  mtime = [];
  rev = 1;
  share_id = none;
  share_item_id = none;
}

abbrev old : Version
old = record {
  vault_id = codes "v";
  node_id = codes "n";
  rev = 4;
  sha256 = codes "b1";
  size = 10;
  author_id = codes "u";
  at = days 70;
}

abbrev newer : Version
newer = record {
  vault_id = codes "v";
  node_id = codes "n";
  rev = 6;
  sha256 = codes "b2";
  size = 20;
  author_id = codes "u";
  at = days 70 + 60;
}

abbrev claim : Claim
claim = record {
  user_id = codes "u";
  sha256 = codes "b2";
  refs_own = 1;
  refs_pending = 1;
  pending_since = some (days 90);
  pending_device_id = none;
}

abbrev pub blob_at : Str → ℕ → Option ℕ → Blob
blob_at sha256 size mark = record {
  sha256 = sha256;
  size = size;
  storage_key = sha256;
  gc_marked_at = mark;
}

abbrev pub store : Tables
store = record {
  users = owner ∷ [];
  vaults = vault ∷ [];
  nodes = note ∷ (trashed_folder ∷ (trashed ∷ []));
  versions = old ∷ (newer ∷ []);
  user_blobs = claim ∷ [];
  blobs = blob_at (codes "b2") 20 none ∷ (blob_at (codes "b4") 30 (some (days 60)) ∷ []);
  journal = [];
  problems = [];
  shares = [];
  share_members = [];
  blob_keys = [];
  dedup_index = [];
  restore_epoch = 1;
}

abbrev pub day_of : ℕ → ℕ
day_of at = at / day_span

abbrev pub week_of : ℕ → ℕ
week_of at = at / (7 * day_span)

thin_versions-Survives_example :
    Elem old ((thin_versions day_of week_of (days 100) store).0).versions
    ↔ Survives day_of week_of store (days 100) old note owner
thin_versions-Survives_example =
    thin_versions-Survives day_of week_of store (days 100) old note vault owner (inl refl)
      (unfold str_beq in refl) (unfold str_beq in refl) (unfold str_beq in refl)

mark_unreferenced_example :
    Pairs (Settled store (days 100)) store.blobs ((mark_unreferenced (days 100) store).0).blobs
mark_unreferenced_example = mark_unreferenced_lem store (days 100)

drop_spent_claims_iff_example : Elem claim ((drop_spent_claims store).0).user_blobs ↔ (
    (claim.refs_pending ≢ 0)
    ⊎ LiveNodeHolds store (codes "u") (codes "b2")
    ⊎ VersionHolds store (codes "u") (codes "b2"))
drop_spent_claims_iff_example = drop_spent_claims_iff store claim (inl refl)

abbrev subtree : List Doomed
subtree = doomed_row trashed_folder ∷ (doomed_row trashed ∷ [])

parent :
    (n m : Node) (d : Doomed) (k : Node)
    → n ≡ m
    → d ≡ doomed_row k
    → n.parent_id ≡ some d.id
    → m.parent_id ≡ some k.id
parent n m d k p q e = sym (ap (λ (r : Node). r.parent_id) p) ∙ e ∙ ap (λ (r : Doomed). some r.id) q

apart : (a b : String) → str_beq (codes a) (codes b) ≡ false → some (codes a) ≡ some (codes b) → ⊥
apart a b f e = ne_of_beq (codes a) (codes b) f (ap (λ o. elim o [ some s ↦ s | none ↦ [] ]) e)

subtree-Closed : Closed store subtree
subtree-Closed n d mn md e1 e2 = elim mn [
  | inl p ↦ absurd (elim md [
    | inl q ↦ apart "r" "e" (unfold str_beq in refl) (parent n note d trashed_folder p q e2)
    | inr (inl q) ↦ apart "r" "d" (unfold str_beq in refl) (parent n note d trashed p q e2)
    | inr (inr q) ↦ q
  ])
  | inr (inl p) ↦ absurd (elim md [
    | inl q ↦
        apart "r" "e" (unfold str_beq in refl) (parent n trashed_folder d trashed_folder p q e2)
    | inr (inl q) ↦
        apart "r" "d" (unfold str_beq in refl) (parent n trashed_folder d trashed p q e2)
    | inr (inr q) ↦ q
  ])
  | inr (inr (inl p)) ↦ elim md [
    | inl q ↦ (
      doomed_row trashed,
      inr (inl refl),
      sym (ap (λ (r : Node). r.vault_id) p),
      sym (ap (λ (r : Node). r.id) p),
      subst⁻¹ (λ (r : Doomed). r.depth < 2) q (omega arith),
    )
    | inr (inl q) ↦
        absurd (apart "e" "d" (unfold str_beq in refl) (parent n trashed d trashed p q e2))
    | inr (inr q) ↦ absurd q
  ]
  | inr (inr (inr p)) ↦ absurd p
]

remove_nodes_by_depth_example :
    (RootDoomed store subtree × (remove_nodes_by_depth subtree store ≡ none))
    ⊎ (¬ RootDoomed store subtree
        × (remove_nodes_by_depth subtree store ≡ removed_at_once subtree store))
remove_nodes_by_depth_example = remove_nodes_by_depth_lem store subtree subtree-Closed

remove_spent_trash_example :
    (RootSpent store × (remove_spent_trash store ≡ none))
    ⊎ (¬ RootSpent store
        × ((s : Tables) × (count : ℕ) × (remove_spent_trash store ≡ some (s, count))
            × (s.versions ≡ store.versions)
            × ((n : Node)
                → Elem n store.nodes
                → Elem n s.nodes
                  ↔ ¬ (
                      (m : Node) × Elem m store.nodes
                      × (m.vault_id ≡ n.vault_id)
                      × (m.id ≡ n.id)
                      × Spent store m))))
remove_spent_trash_example = remove_spent_trash_lem store

sweep_condemned_iff_example :
    Elem
      (blob_at (codes "b4") 30 (some (days 60)))
      ((sweep_condemned (days 7) (days 100) store).0).blobs
    ↔ (Named store (codes "b4") ⊎ (set_before (some (days 60)) (days 100) (days 7) ≡ false))
sweep_condemned_iff_example =
    sweep_condemned_iff store (days 7) (days 100) (blob_at (codes "b4") 30 (some (days 60)))
      (inr (inl refl))

remove_orphans_iff_example :
    Elem (codes "b4") (remove_orphans (λ k. false) store (codes "b4" ∷ []) (codes "b4" ∷ [])).files
    ↔ ((contains (codes "b4") (codes "b4" ∷ []) ≡ false)
        ⊎ HasRow store (codes "b4")
        ⊎ (false ≡ true))
remove_orphans_iff_example =
    remove_orphans_iff (λ k. false) store (codes "b4" ∷ []) (codes "b4" ∷ []) (codes "b4")
      (inl refl)

store-AllChecked : AllChecked store
store-AllChecked ub m = All_at Checked (claim ∷ []) ub ((ground arith, ground arith), tt) m

claims-AllChecked_example :
    AllChecked (claim_blob (codes "u") (codes "b4") store)
    × AllChecked (bind_blob (codes "u") (codes "b4") store)
    × AllChecked (drop_unreferenced (codes "u") store)
    × AllChecked (drop_unbound (days 1) (days 100) store).0
    × AllChecked (clear_pending (days 1) (days 100) store).0
    × AllChecked (drop_spent_claims store).0
claims-AllChecked_example =
    claims-AllChecked store (codes "u") (codes "b4") (days 1) (days 100) store-AllChecked

used_by-claim_blob_example :
    (used_by (claim_blob (codes "u") (codes "b4") store) (codes "u")
      ≡ used_by store (codes "u")
        + growth store (codes "u") (codes "b4") (size_at store.blobs (codes "b4")))
    × (used_by (bind_blob (codes "u") (codes "b4") store) (codes "u")
        ≡ used_by store (codes "u")
          + growth store (codes "u") (codes "b4") (size_at store.blobs (codes "b4")))
used_by-claim_blob_example = used_by-claim_blob store (codes "u") (codes "b4")

fits-bind_blob_example : used_by (bind_blob (codes "u") (codes "b4") store) (codes "u") ≤ 100
fits-bind_blob_example =
    fits-bind_blob store (codes "u") (codes "b4") owner (unfold str_beq in refl)
      (unfold fits in unfold usage_of in unfold str_beq in refl)
