-- ===== src/Server/Delta/Ascending.antt =====
-- The rows of one snapshot of a journal (server/src/delta/service.ts) are in strictly ascending order
-- of revision.
use obsidian_syncserver.Prelude.{
  ℕ, ◌≤◌, ◌<◌, ◌≡◌, ◌≢◌, refl, sym, ap, ◌∙◌, subst⁻¹, ◌⊎◌, inl, inr, Bool, true, false, List, [],
  ◌∷◌, Elem, Str, filter, arith, sort_by, place, place-Elem, Bool-cases, Sorted, sort_by-Sorted,
  sort_by-Elem, filter-Elem, filter-filter, filter_ext, str_eq, leb→le,
}
use obsidian_syncserver.Server.Store.{JournalRow, Tables}
use obsidian_syncserver.Server.Delta.Cuts.{Ascending, filter-sort_by}
use obsidian_syncserver.Server.Delta.{rows_between, after, by_rev, is_latest}

module _ {A : Type 0} (R : A → A → Type 0) (flip : (x y : A) → R x y → R y x) where
  -- Any two members are related.
  abbrev Apart : List A → Type 0
  Apart [] = Unit
  Apart (x ∷ xs) = ((y : A) → Elem y xs → R x y) × Apart xs

  filter-Apart : (p : A → Bool) (xs : List A) → Apart xs → Apart (filter p xs)
  filter-Apart p [] s = tt
  filter-Apart p (x ∷ xs) (far, s) = elim (Bool-cases (p x)) [
    | inl t ↦ rw t ((λ y m. far y (filter-Elem p y xs m).0), filter-Apart p xs s)
    | inr f ↦ rw f (filter-Apart p xs s)
  ]

  place-Apart :
      (le : A → A → Bool) (x : A) (ys : List A)
      → ((y : A) → Elem y ys → R x y)
      → Apart ys
      → Apart (place le x ys)
  unfolding place
  place-Apart le x [] new s = (new, tt)
  place-Apart le x (y ∷ ys) new (far, s) = elim (Bool-cases (le x y)) [
    | inl t ↦ rw (t, place) (new, (far, s))
    | inr f ↦
        rw (f, place)
          ((λ z m. reach z (place-Elem le x z ys m)), place-Apart le x ys (λ z m. new z (inr m)) s)
  ]
    where
      reach : (z : A) → (z ≡ x) ⊎ Elem z ys → R y z
      reach z (inl e) = subst⁻¹ (R y) e (flip x y (new y (inl refl)))
      reach z (inr m) = far z m

  sort_by-Apart : (le : A → A → Bool) (xs : List A) → Apart xs → Apart (sort_by le xs)
  unfolding sort_by
  sort_by-Apart le [] s = tt
  sort_by-Apart le (x ∷ xs) (far, s) =
      place-Apart le x (sort_by le xs) (λ y m. far y (sort_by-Elem le y xs m))
        (sort_by-Apart le xs s)

-- The primary key of the journal: no two rows of a vault have one revision.
abbrev pub Keyed : List JournalRow → Type 0
Keyed [] = Unit
Keyed (j ∷ js) = ((l : JournalRow) → Elem l js → l.vault_id ≡ j.vault_id → j.rev ≢ l.rev) × Keyed js

abbrev Differ : JournalRow → JournalRow → Type 0
Differ j l = j.rev ≢ l.rev

Differ_flip : (j l : JournalRow) → Differ j l → Differ l j
Differ_flip j l d e = d (sym e)

of_vault :
    (t : Tables) (vault : Str) (up_to : ℕ) (j : JournalRow)
    → is_latest t vault up_to j ≡ true
    → j.vault_id ≡ vault
of_vault t vault up_to j h = (str_eq.same_iff j.vault_id vault).0 (ground arith)

filter-Keyed :
    (t : Tables) (vault : Str) (up_to : ℕ) (js : List JournalRow)
    → Keyed js
    → Apart Differ Differ_flip (filter (is_latest t vault up_to) js)
filter-Keyed t vault up_to [] k = tt
filter-Keyed t vault up_to (j ∷ js) (far, k) = elim (Bool-cases (is_latest t vault up_to j)) [
  | inl h ↦ rw h (
    (λ l m.
        let at = filter-Elem (is_latest t vault up_to) l js m in
        far l at.0 (of_vault t vault up_to l at.1 ∙ sym (of_vault t vault up_to j h))),
    filter-Keyed t vault up_to js k,
  )
  | inr f ↦ rw f (filter-Keyed t vault up_to js k)
]

strict :
    (xs : List JournalRow)
    → Sorted by_rev xs
    → Apart Differ Differ_flip xs
    → Ascending (λ (j : JournalRow). j.rev) xs
strict [] s a = tt
strict (x ∷ xs) (low, s) (far, a) = (λ y m. below y (low y m) (far y m), strict xs s a)
  where
    below : (y : JournalRow) → by_rev x y ≡ true → x.rev ≢ y.rev → x.rev < y.rev
    below y h d = omega (arith, leb→le x.rev y.rev h)

total : (j l : JournalRow) → by_rev j l ≡ false → by_rev l j ≡ true
total j l f = ground (arith, f)

trans : (i j l : JournalRow) → by_rev i j ≡ true → by_rev j l ≡ true → by_rev i l ≡ true
trans i j l a b = ground (arith, a, b)

pub rows_between-Ascending :
    (t : Tables) (vault : Str) (from up_to : ℕ)
    → Keyed t.journal
    → Ascending (λ (j : JournalRow). j.rev) (rows_between t vault from up_to)
unfolding rows_between
rows_between-Ascending t vault from up_to k = strict _ (sort_by-Sorted by_rev total trans _) (
    sort_by-Apart Differ Differ_flip by_rev _
      (filter-Apart Differ Differ_flip (after from) _ (filter-Keyed t vault up_to t.journal k)))

pub rows_between-later :
    (t : Tables) (vault : Str) (from later up_to : ℕ)
    → from ≤ later
    → rows_between t vault later up_to ≡ filter (after later) (rows_between t vault from up_to)
unfolding rows_between
rows_between-later t vault from later up_to l =
    let rows = filter (is_latest t vault up_to) t.journal in
    sym (
      filter-sort_by by_rev total trans (after later) (filter (after from) rows)
      ∙ ap (sort_by by_rev) (
          filter-filter (after from) (after later) rows
          ∙ filter_ext _ (after later) rows (λ j. ground (arith, l))))
