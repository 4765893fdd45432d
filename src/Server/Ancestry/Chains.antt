-- ===== src/Server/Ancestry/Chains.antt =====
-- The chains below a moved node follow it (server/src/ancestry.ts).
use obsidian_syncserver.Prelude.{
  ◌≡◌, refl, sym, ap, ◌⊎◌, inl, inr, true, false, List, [], ◌∷◌, ◌++◌, Pairs, Elem, Str, ◌==◌,
  contains, Elem→contains, str_eq, str_beq_iff, arith, Bool-cases,
}
use obsidian_syncserver.Server.Store.{Node, Tables, update_where}
use obsidian_syncserver.Server.Ancestry.{after_id, is_below, rechained, rewrite_subtree_ancestry}

-- What the row of a node becomes: below the moved node, where the chain names it, the part up to it is
-- replaced by the new chain, and what follows it stays; any other row stays.
abbrev pub Rechained : Str → Str → List Str → Node → Node → Type 0
Rechained vault id chain n after =
    ((n.vault_id ≡ vault)
      × ((above : List Str) × (below : List Str) × (n.ancestry ≡ above ++ (id ∷ below))
          × ¬ Elem id above
          × (after ≡ record n { ancestry = chain ++ (id ∷ below) })))
    ⊎ ((n.vault_id ≡ vault → ¬ Elem id n.ancestry) × (after ≡ n))

-- The chain at the first place where it names the node.
split_at :
    (id : Str) (xs : List Str)
    → contains id xs ≡ true
    → (above : List Str) × (xs ≡ above ++ (id ∷ after_id id xs)) × ¬ Elem id above
unfolding contains after_id
split_at id [] h = cc
split_at id (x ∷ xs) h = elim (Bool-cases (x == id)) [
  | inl e ↦
      let same : x ≡ id = (str_beq_iff x id).0 e in
      ([], rw (after_id, e) (ap (λ y. y ∷ xs) same), λ m. m)
  | inr f ↦
      let (above, e, out) = split_at id xs (ground arith) in
      (
        x ∷ above,
        rw (after_id, f) (ap (λ ys. x ∷ ys) e),
        λ m. elim m [
          | inl same ↦ ground (arith, f, (str_beq_iff x id).1 (sym same))
          | inr i ↦ out i
        ],
      )
]

module _ (vault id : Str) (chain : List Str) where
  row-Rechained :
      (n : Node) → is_below vault id n ≡ true → Rechained vault id chain n (rechained id chain n)
  row-Rechained n h =
      let (above, e, out) = split_at id n.ancestry (ground arith) in
      inl (
        (str_beq_iff n.vault_id vault).0 (ground arith),
        (above, after_id id n.ancestry, e, out, refl),
      )

  row-stays : (n : Node) → is_below vault id n ≡ false → Rechained vault id chain n n
  row-stays n f = inr (
    λ e m. ground (arith, f, (str_beq_iff n.vault_id vault).1 e, Elem→contains id n.ancestry m),
    refl,
  )

  rows-Rechained :
      (ns : List Node)
      → Pairs
          (Rechained vault id chain)
          ns
          (update_where (is_below vault id) (rechained id chain) ns)
  rows-Rechained [] = tt
  rows-Rechained (n ∷ ns) = elim (Bool-cases (is_below vault id n)) [
    | inl h ↦ rw h (row-Rechained n h, rows-Rechained ns)
    | inr f ↦ rw f (row-stays n f, rows-Rechained ns)
  ]

-- Of every node below a moved one, whether a child of it or deeper, the chain becomes the new chain of
-- the moved node, the moved node, and what followed it before. No other row changes, and no other
-- column of a row.
pub rewrite_subtree-chains :
    (t : Tables) (vault id : Str) (chain : List Str)
    → Pairs (Rechained vault id chain) t.nodes (rewrite_subtree_ancestry vault id chain t).nodes
unfolding rewrite_subtree_ancestry
rewrite_subtree-chains t vault id chain = rows-Rechained vault id chain t.nodes
