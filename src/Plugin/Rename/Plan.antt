-- ===== src/Plugin/Rename/Plan.antt =====
-- The plan as a whole: its moves are sound and do not touch one another.
use mathlib.Core.List.{foldl}
use obsidian_syncserver.Prelude.{
  true, false, ◌||◌, ◌≡◌, ◌≢◌, inl, inr, refl, subst, subst⁻¹, none, List, [], ◌∷◌, ◌++◌, Str, Dict,
  lookup, any_none, Elem, Elem-append, contains, add_to_set, contains-add_to_set, str_eq,
  str_beq_iff, sort_by, Option-cases, arith, ◌==◌,
}
use obsidian_syncserver.Plugin.Rename.{
  Vanished, TreeNode, FileMeta, Gone, FolderMove, MovePlan, within, planned_move, consider,
  folder_moves, gone_of, folders_of, shallow_first,
}
use obsidian_syncserver.Plugin.Rename.Moves.{IsSound, Passed, planned_move-Passed, Passed-IsSound}

-- A later move starts outside what an earlier one carries, and ends elsewhere.
abbrev pub Compatible : FolderMove → FolderMove → Type 0
Compatible earlier later =
    (later.from ≢ earlier.from) × (within earlier.from later.from ≡ false) × (later.to ≢ earlier.to)

abbrev pub AllCompatible : List FolderMove → Type 0
AllCompatible [] = Unit
AllCompatible (m ∷ ms) = ((l : FolderMove) → Elem l ms → Compatible m l) × AllCompatible ms

AllCompatible-append :
    (ms : List FolderMove) (l : FolderMove)
    → AllCompatible ms
    → ((e : FolderMove) → Elem e ms → Compatible e l)
    → AllCompatible (ms ++ (l ∷ []))
AllCompatible-append [] l c h = (λ k i. absurd i, tt)
AllCompatible-append (m ∷ ms) l (c, cs) h =
    (later, AllCompatible-append ms l cs (λ e i. h e (inr i)))
  where
    later : (k : FolderMove) → Elem k (ms ++ (l ∷ [])) → Compatible m k
    later k i = elim (Elem-append k ms (l ∷ []) i) [
      | inl j ↦ c k j
      | inr (inl e) ↦ subst⁻¹ (Compatible m) e (h m (inl refl))
      | inr (inr j) ↦ absurd j
    ]

module _ (gone : List Gone) (tree : Dict TreeNode) (meta : Dict FileMeta) (here : List Str)
    (rootless : lookup [] tree ≡ none) where
  record IsGood (st : MovePlan) : Type 0 where
    sound : (m : FolderMove) → Elem m st.plan → IsSound gone tree here m
    compatible : AllCompatible st.plan
    claims : (m : FolderMove) → Elem m st.plan → contains m.to st.claimed ≡ true

  Passed-Compatible :
      {from : Str} {st : MovePlan} {l : FolderMove}
      → Passed gone tree meta here from st l
      → IsGood st
      → (e : FolderMove) → Elem e st.plan
      → Compatible e l
  Passed-Compatible {st} {l} p g e i =
      let u =
        any_none (λ (k : FolderMove). l.from == k.from || within k.from l.from) st.plan e
          p.uncarried i in
      (
        ground (arith, u, str_beq_iff l.from e.from),
        ground (arith, u),
        λ q. cc (subst (λ t. contains t st.claimed ≡ false) q p.unclaimed, g.claims e i),
      )

  consider-IsGood :
      (st : MovePlan) (from : Str) → IsGood st → IsGood (consider gone tree meta here st from)
  unfolding consider
  consider-IsGood st from g = elim (Option-cases (planned_move gone tree meta here from st)) [
    | inl e ↦ rw (e, consider) g
    | inr (m, e) ↦ rw (e, consider) (grown m (planned_move-Passed gone tree meta here from st m e))
  ]
    where
      grown :
          (m : FolderMove)
          → Passed gone tree meta here from st m
          → IsGood (record { plan = st.plan ++ (m ∷ []); claimed = add_to_set m.to st.claimed })
      grown m p = record {
        sound = λ k i. elim (Elem-append k st.plan (m ∷ []) i) [
          | inl j ↦ g.sound k j
          | inr (inl e) ↦
              subst⁻¹ (IsSound gone tree here) e (Passed-IsSound gone tree meta here rootless p)
          | inr (inr j) ↦ absurd j
        ];
        compatible = AllCompatible-append st.plan m g.compatible (Passed-Compatible p g);
        claims = λ k i. rw contains-add_to_set (elim (Elem-append k st.plan (m ∷ []) i) [
          | inl j ↦ ground (arith, g.claims k j)
          | inr (inl e) ↦ ground (arith, str_beq_iff m.to k.to)
          | inr (inr j) ↦ absurd j
        ]);
      }

  plan_all-IsGood :
      (folders : List Str) (st : MovePlan)
      → IsGood st
      → IsGood (foldl (consider gone tree meta here) st folders)
  plan_all-IsGood [] st g = g
  plan_all-IsGood (from ∷ folders) st g =
      plan_all-IsGood folders (consider gone tree meta here st from) (consider-IsGood st from g)

-- The plan that the loop over the sorted folders leaves.
final-IsGood :
    (gone : List Gone) (tree : Dict TreeNode) (meta : Dict FileMeta) (here : List Str)
    (rootless : lookup [] tree ≡ none)
    → IsGood gone tree meta here rootless (
        foldl
          (consider gone tree meta here)
          (record { plan = []; claimed = [] })
          (sort_by shallow_first (folders_of gone)))
final-IsGood gone tree meta here rootless =
    plan_all-IsGood gone tree meta here rootless (sort_by shallow_first (folders_of gone))
      (record { plan = []; claimed = [] })
      (record { sound = λ m i. absurd i; compatible = tt; claims = λ m i. absurd i })

-- With no entry for the vault root in the walked tree, every planned folder move is sound: the
-- server holds a folder at its source, with the id and revision sent; nothing is left below it on
-- this device; the destination is neither the source nor inside it, every folder above it is a
-- folder of the server, and it is free or an empty unshared folder that the move replaces; and every
-- file that vanished from under the source stands at the same relative path below the destination,
-- where the server holds nothing, and is listed among the move's children.
pub folder_moves-IsSound :
    (vanished : Dict (List Vanished)) (tree : Dict TreeNode) (meta : Dict FileMeta)
    (here : List Str) (m : FolderMove)
    → lookup [] tree ≡ none
    → Elem m (folder_moves vanished tree meta here)
    → IsSound (gone_of vanished) tree here m
unfolding folder_moves
folder_moves-IsSound vanished tree meta here m rootless i =
    (final-IsGood (gone_of vanished) tree meta here rootless).sound m i

-- With no entry for the vault root in the walked tree, no two moves of a plan share a source or a
-- destination, and none starts inside the folder that an earlier one carries.
pub folder_moves-AllCompatible :
    (vanished : Dict (List Vanished)) (tree : Dict TreeNode) (meta : Dict FileMeta)
    (here : List Str)
    → lookup [] tree ≡ none
    → AllCompatible (folder_moves vanished tree meta here)
unfolding folder_moves
folder_moves-AllCompatible vanished tree meta here rootless =
    (final-IsGood (gone_of vanished) tree meta here rootless).compatible
