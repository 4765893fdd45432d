-- ===== src/Plugin/Rename/Paths.antt =====
-- Parents, bases and ancestors of a path.
use mathlib.Core.List.{foldl}
use obsidian_syncserver.Prelude.{
  ℕ, zero, suc, ◌≤◌, false, ◌||◌, ◌≡◌, refl, ap, ◌∙◌, inl, inr, none, List, [], ◌∷◌, ◌++◌, Str,
  length, drop, any, starts_with, last_index_of, last_index_of-some, last_index_of-lt,
  last_index_of-append_none, take-append, drop_past, length-take_le, ◌⊎◌, ◌≢◌, str_beq, str_beq_iff,
  str_eq, contains, add_to_set, contains-add_to_set, Option-cases, arith,
}
use obsidian_syncserver.Plugin.Rename.{
  Gone, slash, parent_path, base_path, join, within, add_ancestors, folders_of,
}

-- No separator stands in the text.
abbrev pub IsName : Str → Type 0
IsName b = last_index_of slash b ≡ none

-- A path below a folder is taken apart into that folder and its own name.
pub parent_path-join :
    (d b : Str) → IsName b → (parent_path (join d b) ≡ d) × (base_path (join d b) ≡ b)
unfolding parent_path base_path
parent_path-join d b h =
    let cut = last_index_of-append_none slash d b h in
    (rw (cut, parent_path) (take-append d (slash ∷ b)), rw (cut, base_path) (drop_past d b slash))

-- A parent is shorter, so the loop over the ancestors ends.
length-parent_path : (c : ℕ) (p : Str) → length (parent_path (c ∷ p)) ≤ length p
unfolding parent_path
length-parent_path c p = elim (Option-cases (last_index_of slash (c ∷ p))) [
  | inl e ↦ rw (e, parent_path) (omega arith)
  | inr (i, e) ↦
      rw (e, parent_path)
        (omega (arith, last_index_of-lt slash (c ∷ p) i e, length-take_le i (c ∷ p)))
]

length-parent_path_le : (p : Str) → length (parent_path p) ≤ length p
length-parent_path_le [] = unfold parent_path last_index_of in omega arith
length-parent_path_le (c ∷ p) = omega (arith, length-parent_path c p)

starts_with_name : (b d : Str) → IsName b → starts_with b (d ++ (slash ∷ [])) ≡ false
unfolding starts_with last_index_of
starts_with_name [] [] h = refl
starts_with_name [] (x ∷ d) h = refl
starts_with_name (c ∷ b) [] h = ground arith
starts_with_name (c ∷ b) (x ∷ d) h = ground (arith, starts_with_name b d)

-- What lies within a folder lies directly in it, or within a folder below it.
within-join : (d q b : Str) → IsName b → within d (join q b) ≡ (str_beq d q || within d q)
unfolding starts_with str_beq
within-join [] [] b h = refl
within-join (x ∷ d) [] b h = ground (arith, starts_with_name b d h)
within-join [] (y ∷ q) b h = ground arith
within-join (x ∷ d) (y ∷ q) b h = ground (arith, within-join d q b h)

-- A path is a name, or a name below its parent.
path-cases :
    (p : Str)
    → (IsName p × (parent_path p ≡ [])) ⊎ ((b : Str) × IsName b × (p ≡ join (parent_path p) b))
unfolding parent_path
path-cases p = elim (Option-cases (last_index_of slash p)) [
  | inl e ↦ inl (e, rw (e, parent_path))
  | inr (i, e) ↦
      let (split, name) = last_index_of-some slash p i e in
      inr (drop (suc i) p, name, rw (e, parent_path) split)
]

not-within_name : (x : ℕ) (d p : Str) → IsName p → within (x ∷ d) p ≡ false
not-within_name x d p h = starts_with_name p (x ∷ d) h

-- Within a folder is within, or at, the parent.
pub within-parent_path :
    (x : ℕ) (d p : Str)
    → within (x ∷ d) p ≡ (str_beq (x ∷ d) (parent_path p) || within (x ∷ d) (parent_path p))
within-parent_path x d p = elim (path-cases p) [
  | inl (name, e) ↦ rw (e, not-within_name x d p name) (unfold starts_with str_beq in refl)
  | inr (b, name, e) ↦ ap (within (x ∷ d)) e ∙ within-join (x ∷ d) (parent_path p) b name
]

pub str_beq_sym : (a b : Str) → str_beq a b ≡ str_beq b a
str_beq_sym a b = ground (arith, str_beq_iff a b, str_beq_iff b a)

add_ancestors-suc :
    (fuel c : ℕ) (p : Str) (folders : List Str)
    → add_ancestors (suc fuel) (c ∷ p) folders
      ≡ add_ancestors fuel (parent_path (c ∷ p)) (add_to_set (c ∷ p) folders)
unfolding add_ancestors str_beq
add_ancestors-suc fuel c p folders = refl

contains-none :
    (fuel x : ℕ) (d : Str) (folders : List Str)
    → contains (x ∷ d) (add_ancestors fuel [] folders)
      ≡ (contains (x ∷ d) folders || (str_beq (x ∷ d) [] || within (x ∷ d) []))
unfolding add_ancestors str_beq starts_with
contains-none zero x d folders = ground arith
contains-none (suc fuel) x d folders = ground arith

-- With as much fuel as the path is long, the loop adds the path and every folder that it is within.
contains-add_ancestors :
    (fuel : ℕ) (p : Str) (folders : List Str) (x : ℕ) (d : Str)
    → length p ≤ fuel
    → contains (x ∷ d) (add_ancestors fuel p folders)
      ≡ (contains (x ∷ d) folders || (str_beq (x ∷ d) p || within (x ∷ d) p))
contains-add_ancestors fuel [] folders x d h = contains-none fuel x d folders
contains-add_ancestors zero (c ∷ p) folders x d h = absurd (omega arith)
contains-add_ancestors (suc fuel) (c ∷ p) folders x d h =
    let parent = parent_path (c ∷ p) in
    rw add_ancestors-suc (
      ground (
        arith,
        contains-add_ancestors fuel parent (add_to_set (c ∷ p) folders) x d
            (omega (arith, length-parent_path c p)),
        contains-add_to_set (x ∷ d) (c ∷ p) folders,
        within-parent_path x d (c ∷ p),
        str_beq_sym (x ∷ d) (c ∷ p),
      ))

add_all : List Str → List Gone → List Str
add_all = foldl (λ folders g. add_ancestors (length g.v.path) (parent_path g.v.path) folders)

contains-add_all :
    (x : ℕ) (d : Str) (gone : List Gone) (folders : List Str)
    → contains (x ∷ d) (add_all folders gone)
      ≡ (contains (x ∷ d) folders || any (λ (g : Gone). within (x ∷ d) g.v.path) gone)
unfolding add_all
contains-add_all x d [] folders = ground arith
contains-add_all x d (g ∷ gone) folders = ground (
  arith,
  contains-add_all x d gone (add_ancestors (length g.v.path) (parent_path g.v.path) folders),
  contains-add_ancestors (length g.v.path) (parent_path g.v.path) folders x d
      (length-parent_path_le g.v.path),
  within-parent_path x d g.v.path,
)

-- The folders that a pass considers are exactly the folders, at any depth, that hold a vanished
-- file: a path other than the vault root is among them just when some vanished file lies within it.
pub contains-folders_of :
    (d : Str) (gone : List Gone)
    → d ≢ []
    → contains d (folders_of gone) ≡ any (λ (g : Gone). within d g.v.path) gone
unfolding folders_of add_all
contains-folders_of [] gone h = absurd (h refl)
contains-folders_of (x ∷ d) gone h = contains-add_all x d gone [] ∙ unfold contains in refl
