-- ===== src/Server/Delta/Listing.antt =====
-- `listSubtree` of server/src/delta/service.ts: the walk that a device takes when it has no usable
-- cursor, parents first, as plugin/src/engine/tree.ts reads it.
use obsidian_syncserver.Prelude.{
  ◌+◌, ◌≡◌, refl, ap, ◌∙◌, subst, inl, inr, Bool, true, false, ◌&&◌, ◌||◌, Option, none, some, List,
  [], ◌∷◌, ◌++◌, Elem, Str, ◌==◌, map, filter, length, leb, nat_beq, ltb, contains, text_leb,
  Elem-append, length-append, sort_by, Sorted, sort_by-Sorted, Elem-sort_by, Elem-filter, str_eq,
  arith, if◌then◌else◌,
}
use obsidian_syncserver.Server.Store.{Node, Version, put, Tables, is_null}
use obsidian_syncserver.Server.Delta.{ChangeRow, author_of}

-- `ORDER BY array_length(ancestry, 1) NULLS FIRST, id`: the length of an empty array is NULL.
abbrev pub by_depth_and_id : Node → Node → Bool
by_depth_and_id n m =
    ltb (length n.ancestry) (length m.ancestry)
    || (nat_beq (length n.ancestry) (length m.ancestry) && text_leb n.id m.id)

abbrev pub is_under : Option Str → Node → Bool
is_under none n = true
is_under (some id) n = n.id == id || contains id n.ancestry

abbrev pub is_listed : Str → Option Str → Node → Bool
is_listed vault under n = n.vault_id == vault && is_null n.deleted_at && is_under under n

-- The version of the node with the highest revision.
abbrev pub newer : Version → Option Version → Option Version
newer ve none = some ve
newer ve (some other) = some (if leb other.rev ve.rev then ve else other)

unfoldable pub latest_version : Str → Str → List Version → Option Version
latest_version vault node [] = none
latest_version vault node (ve ∷ versions) =
    let rest = latest_version vault node versions in
    if ve.vault_id == vault && ve.node_id == node then newer ve rest else rest

abbrev pub listed_as : Tables → Node → ChangeRow
listed_as t n = record {
  node_id = n.id;
  parent_id = n.parent_id;
  name = n.name;
  op = put;
  rev = n.rev;
  sha256 = n.sha256;
  size = n.size;
  mtime = n.mtime;
  share_id = n.share_id;
  author_id = author_of (latest_version n.vault_id n.id t.versions);
}

unfoldable pub listed_nodes : Tables → Str → Option Str → List Node
listed_nodes t vault under = sort_by by_depth_and_id (filter (is_listed vault under) t.nodes)

unfoldable pub list_subtree : Tables → Str → Option Str → List ChangeRow
list_subtree t vault under = map (listed_as t) (listed_nodes t vault under)

text_leb-total : (a b : Str) → text_leb a b ≡ false → text_leb b a ≡ true
unfolding text_leb
text_leb-total [] b f = cc
text_leb-total (x ∷ a) [] f = refl
text_leb-total (x ∷ a) (y ∷ b) f = ground (arith, text_leb-total a b, f)

text_leb_trans : (a b c : Str) → text_leb a b ≡ true → text_leb b c ≡ true → text_leb a c ≡ true
unfolding text_leb
text_leb_trans [] b c h k = refl
text_leb_trans (x ∷ a) [] c h k = cc
text_leb_trans (x ∷ a) (y ∷ b) [] h k = cc
text_leb_trans (x ∷ a) (y ∷ b) (z ∷ c) h k = ground (arith, text_leb_trans a b c, h, k)

by_depth-total : (n m : Node) → by_depth_and_id n m ≡ false → by_depth_and_id m n ≡ true
by_depth-total n m f = ground (arith, text_leb-total n.id m.id, f)

by_depth_trans :
    (n m o : Node)
    → by_depth_and_id n m ≡ true
    → by_depth_and_id m o ≡ true
    → by_depth_and_id n o ≡ true
by_depth_trans n m o h k = ground (arith, text_leb_trans n.id m.id o.id, h, k)

Sorted-after :
    {A : Type 0} (le : A → A → Bool) (x y : A) (xs ys : List A)
    → Sorted le (xs ++ (x ∷ ys))
    → Elem y ys
    → le x y ≡ true
Sorted-after le x y [] ys (low, s) m = low y m
Sorted-after le x y (z ∷ xs) ys (low, s) m = Sorted-after le x y xs ys s m

-- In the listing of a vault, or of what is under a node, a node whose chain is that of a listed node
-- with this node's id at its end comes after it.
pub listed_nodes-parent :
    (t : Tables) (vault : Str) (under : Option Str) (n p : Node) (before behind : List Node)
    → listed_nodes t vault under ≡ before ++ (n ∷ behind)
    → Elem p t.nodes
    → is_listed vault under p ≡ true
    → n.ancestry ≡ p.ancestry ++ (p.id ∷ [])
    → Elem p before
unfolding listed_nodes
listed_nodes-parent t vault under n p before behind e m l chain =
    let nodes = filter (is_listed vault under) t.nodes in
    let sorted : Sorted by_depth_and_id (before ++ (n ∷ behind)) =
      subst (Sorted by_depth_and_id) e
        (sort_by-Sorted by_depth_and_id by_depth-total by_depth_trans nodes) in
    let listed : Elem p (before ++ (n ∷ behind)) =
      subst (Elem p) e (Elem-sort_by by_depth_and_id p nodes (Elem-filter _ p t.nodes m l)) in
    let deeper : length n.ancestry ≡ length p.ancestry + 1 =
      ap length chain ∙ length-append p.ancestry (p.id ∷ []) in
    elim (Elem-append p before (n ∷ behind) listed) [
      | inl h ↦ h
      | inr (inl same) ↦ absurd (omega (arith, deeper, ap (λ (n : Node). length n.ancestry) same))
      | inr (inr later) ↦
          absurd
            (ground (arith, deeper, Sorted-after by_depth_and_id n p before behind sorted later))
    ]
