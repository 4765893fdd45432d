-- ===== src/Server/Remove/Roots.antt =====
-- The reference of `shares` to the root of its subtree (server/db/schema.sql), over a set of nodes to
-- remove.
use obsidian_syncserver.Prelude.{
  ◌≡◌, refl, true, false, ◌&&◌, ◌||◌, List, [], ◌∷◌, ◌++◌, Str, ◌==◌, any, any_found, any_of,
  any-append, any-sort_by, Elem, sort_by, str_eq, str_beq_iff, arith,
}
use obsidian_syncserver.Server.Store.{Share, Tables}
use obsidian_syncserver.Server.Remove.{Doomed, deeper_first, named_by, holds_root}

pub named_by-Elem :
    (level : List Doomed) (d : Doomed) (vault id : Str)
    → Elem d level
    → d.vault_id ≡ vault
    → d.id ≡ id
    → named_by level vault id ≡ true
named_by-Elem level d vault id m e1 e2 =
    any_of (λ d. d.vault_id == vault && d.id == id) level d m
      (ground (arith, str_beq_iff d.vault_id vault, str_beq_iff d.id id))

-- A share has one of the doomed as the root of its subtree.
abbrev pub RootDoomed : Tables → List Doomed → Type 0
RootDoomed t doomed =
    (s : Share) × Elem s t.shares
    × ((d : Doomed) × Elem d doomed
        × (d.vault_id ≡ s.initiator_vault_id)
        × (d.id ≡ s.subtree_node_id))

pub root_found :
    (t : Tables) (doomed : List Doomed) → holds_root doomed t ≡ true → RootDoomed t doomed
root_found t doomed h =
    let (s, ms, e) =
      any_found (λ (s : Share). named_by doomed s.initiator_vault_id s.subtree_node_id) t.shares
        h in
    let (d, md, f) =
      any_found (λ d. d.vault_id == s.initiator_vault_id && d.id == s.subtree_node_id) doomed e in
    (
      s,
      ms,
      (
        d,
        md,
        (str_beq_iff d.vault_id s.initiator_vault_id).0 (ground arith),
        (str_beq_iff d.id s.subtree_node_id).0 (ground arith),
      ),
    )

pub root_held :
    (t : Tables) (doomed : List Doomed) → RootDoomed t doomed → holds_root doomed t ≡ true
root_held t doomed (s, ms, (d, md, e1, e2)) =
    any_of (λ (s : Share). named_by doomed s.initiator_vault_id s.subtree_node_id) t.shares s ms
      (named_by-Elem doomed d s.initiator_vault_id s.subtree_node_id md e1 e2)

pub named_by-append :
    (a b : List Doomed) (shares : List Share)
    → any (λ (s : Share). named_by (a ++ b) s.initiator_vault_id s.subtree_node_id) shares ≡ (
        any (λ (s : Share). named_by a s.initiator_vault_id s.subtree_node_id) shares
        || any (λ (s : Share). named_by b s.initiator_vault_id s.subtree_node_id) shares)
named_by-append a b [] = refl
named_by-append a b (s ∷ shares) = ground (
  arith,
  any-append (λ d. d.vault_id == s.initiator_vault_id && d.id == s.subtree_node_id) a b,
  named_by-append a b shares,
)

pub named_by-nothing :
    (shares : List Share)
    → any (λ (s : Share). named_by [] s.initiator_vault_id s.subtree_node_id) shares ≡ false
named_by-nothing [] = refl
named_by-nothing (s ∷ shares) = named_by-nothing shares

pub named_by-sorted :
    (doomed : List Doomed) (shares : List Share)
    → any
        (λ (s : Share).
          named_by (sort_by deeper_first doomed) s.initiator_vault_id s.subtree_node_id)
        shares
      ≡ any (λ (s : Share). named_by doomed s.initiator_vault_id s.subtree_node_id) shares
named_by-sorted doomed [] = refl
named_by-sorted doomed (s ∷ shares) = ground (
  arith,
  any-sort_by deeper_first (λ d. d.vault_id == s.initiator_vault_id && d.id == s.subtree_node_id)
      doomed,
  named_by-sorted doomed shares,
)
