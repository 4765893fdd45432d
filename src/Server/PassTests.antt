-- ===== src/Server/PassTests.antt =====
-- A pass of the collector over the tables of the other tests.
use obsidian_syncserver.Prelude.{
  ◌≡◌, refl, sym, ap, ◌∙◌, Pairs, false, Option, ◌⊎◌, none, some, [], ◌∷◌, codes, str_beq,
  ne_of_beq, Elem, inl, inr, str_eq, List, Str,
}
use obsidian_syncserver.Server.Store.{Vault, Node, Blob, Tables, folder}
use obsidian_syncserver.Server.Collector.{Limits}
use obsidian_syncserver.Server.Collector.Pass.{Swept, sweep}
use obsidian_syncserver.Server.Collector.Pass.Kept.{sweep-ends, sweep-keeps, OnlyRow, Rooted}
use obsidian_syncserver.Server.Retention.{thin_versions}
use obsidian_syncserver.Server.Retention.Trash.{RootSpent}
use obsidian_syncserver.Server.Ancestry.{rewrite_subtree_ancestry}
use obsidian_syncserver.Server.Ancestry.Chains.{Rechained, rewrite_subtree-chains}
use obsidian_syncserver.Server.StoreTests.{days, store, note, blob_at, day_of, week_of}

abbrev limits : Limits
limits = record { unbound_blob_ttl = days 1; gc_quarantine = days 7; journal_ttl = days 90 }

abbrev root : Node
root = record {
  vault_id = codes "v";
  id = codes "r";
  parent_id = none;
  sha256 = none;
  deleted_at = none;
  ancestry = [];
  name = none;
  type = folder;
  size = none;
  mtime = [];
  rev = 1;
  share_id = none;
  share_item_id = none;
}

abbrev rooted : Tables
rooted = record store { nodes = root ∷ store.nodes }

other_id : (n m k : Node) → m ≡ k → str_beq k.id n.id ≡ false → m.id ≡ n.id → m ≡ n
other_id n m k p f e = absurd (ne_of_beq k.id n.id f (sym (ap (λ (r : Node). r.id) p) ∙ e))

note-OnlyRow : OnlyRow rooted note
note-OnlyRow m (inl p) vault id = other_id note m _ p (unfold str_beq in refl) id
note-OnlyRow m (inr (inl p)) vault id = p
note-OnlyRow m (inr (inr (inl p))) vault id = other_id note m _ p (unfold str_beq in refl) id
note-OnlyRow m (inr (inr (inr (inl p)))) vault id = other_id note m _ p (unfold str_beq in refl) id
note-OnlyRow m (inr (inr (inr (inr p)))) vault id = absurd p

root-OnlyRow : OnlyRow rooted root
root-OnlyRow m (inl p) vault id = p
root-OnlyRow m (inr (inl p)) vault id = other_id root m _ p (unfold str_beq in refl) id
root-OnlyRow m (inr (inr (inl p))) vault id = other_id root m _ p (unfold str_beq in refl) id
root-OnlyRow m (inr (inr (inr (inl p)))) vault id = other_id root m _ p (unfold str_beq in refl) id
root-OnlyRow m (inr (inr (inr (inr p)))) vault id = absurd p

rooted-Rooted : Rooted rooted
rooted-Rooted va (inl e) = (
  root,
  inl refl,
  root-OnlyRow,
  refl,
  sym (ap (λ (v : Vault). v.id) e),
  sym (ap (λ (v : Vault). v.root_node_id) e),
)
rooted-Rooted va (inr m) = absurd m

abbrev pass : Tables → Option Swept
pass t =
    sweep day_of week_of limits (λ k. false) 0 (λ i. days 100) (λ i s. s) t
      (codes "b2" ∷ (codes "b4" ∷ []))

sweep-ends_example :
    (RootSpent (thin_versions day_of week_of (days 100) rooted).0 × (pass rooted ≡ none))
    ⊎ (¬ RootSpent (thin_versions day_of week_of (days 100) rooted).0
        × ((swept : Swept) × (pass rooted ≡ some swept)))
sweep-ends_example =
    sweep-ends day_of week_of limits (λ k. false) 0 (λ i. days 100) (λ i t. t) rooted
      (codes "b2" ∷ (codes "b4" ∷ [])) rooted-Rooted

no_root : RootSpent (thin_versions day_of week_of (days 100) rooted).0 → ⊥
unfolding thin_versions
no_root (s, m, held) = m

abbrev swept_store : (swept : Swept) × (pass rooted ≡ some swept)
swept_store =
    elim (sweep-ends day_of week_of limits (λ k. false) 0 (λ i. days 100) (λ i t. t) rooted
      (codes "b2" ∷ (codes "b4" ∷ [])) rooted-Rooted) [ inl p ↦ absurd (no_root p.0) | inr p ↦ p.1 ]

sweep-keeps_example :
    Elem (codes "b2") swept_store.0.files
    × ((c : Blob) × Elem c swept_store.0.tables.blobs
        × (c.sha256 ≡ codes "b2")
        × (c.storage_key ≡ codes "b2"))
sweep-keeps_example =
    sweep-keeps day_of week_of limits (λ k. false) 0 (λ i. days 100) rooted
      (codes "b2" ∷ (codes "b4" ∷ [])) note (blob_at (codes "b2") 20 none) swept_store.0
      (inr (inl refl)) note-OnlyRow refl refl (inl refl) (inl refl) swept_store.1

abbrev moved : Node
moved = record {
  vault_id = codes "v";
  id = codes "m";
  parent_id = some (codes "r");
  sha256 = none;
  deleted_at = none;
  ancestry = codes "r" ∷ [];
  name = none;
  type = folder;
  size = none;
  mtime = [];
  rev = 1;
  share_id = none;
  share_item_id = none;
}

abbrev inside : Node
inside = record {
  vault_id = codes "v";
  id = codes "i";
  parent_id = some (codes "m");
  sha256 = none;
  deleted_at = none;
  ancestry = codes "r" ∷ (codes "m" ∷ []);
  name = none;
  type = folder;
  size = none;
  mtime = [];
  rev = 1;
  share_id = none;
  share_item_id = none;
}

abbrev deep : Node
deep = record {
  vault_id = codes "v";
  id = codes "x";
  parent_id = some (codes "i");
  sha256 = none;
  deleted_at = none;
  ancestry = codes "r" ∷ (codes "m" ∷ (codes "i" ∷ []));
  name = none;
  type = folder;
  size = none;
  mtime = [];
  rev = 1;
  share_id = none;
  share_item_id = none;
}

abbrev tree : Tables
tree = record store { nodes = moved ∷ (inside ∷ (deep ∷ [])) }

abbrev new_chain : List Str
new_chain = codes "r" ∷ (codes "z" ∷ [])

rewrite_subtree-chains_example :
    Pairs
      (Rechained (codes "v") (codes "m") new_chain)
      tree.nodes
      (rewrite_subtree_ancestry (codes "v") (codes "m") new_chain tree).nodes
rewrite_subtree-chains_example = rewrite_subtree-chains tree (codes "v") (codes "m") new_chain
