-- ===== src/Server/Delta/Steady.antt =====
-- A snapshot of a journal (server/src/delta/service.ts) stays as it is while the vault is written: what
-- is journalled later has higher revisions.
use obsidian_syncserver.Prelude.{
  ℕ, ◌<◌, ◌≡◌, refl, ap, ◌∙◌, inl, inr, Bool, false, ◌&&◌, List, [], ◌∷◌, ◌++◌, Elem, Str, ◌==◌,
  filter, any, any-append, leb, sort_by, str_eq, arith, Bool-cases, append_nil, filter-none,
}
use obsidian_syncserver.Server.Store.{JournalRow, Tables}
use obsidian_syncserver.Server.Replica.{is_node}
use obsidian_syncserver.Server.Delta.{is_later, is_latest, after, by_rev, rows_between}

filter-append :
    {A : Type 0} (p : A → Bool) (xs ys : List A) → filter p (xs ++ ys) ≡ filter p xs ++ filter p ys
filter-append p [] ys = refl
filter-append p (x ∷ xs) ys = ground (arith, filter-append p xs ys)

filter-same :
    {A : Type 0} (p q : A → Bool) (xs : List A)
    → ((a : A) → Elem a xs → p a ≡ q a)
    → filter p xs ≡ filter q xs
filter-same p q [] h = refl
filter-same p q (x ∷ xs) h = ground (arith, h x (inl refl), filter-same p q xs (λ a m. h a (inr m)))

any-none :
    {A : Type 0} (p : A → Bool) (xs : List A)
    → ((a : A) → Elem a xs → p a ≡ false)
    → any p xs ≡ false
any-none p [] h = refl
any-none p (x ∷ xs) h = ground (arith, h x (inl refl), any-none p xs (λ a m. h a (inr m)))

-- `s` is `t` after further writes: its journal goes on with rows beyond this revision of the vault, and
-- the nodes that the journal of `t` names are as they were, there or gone.
pub record GoesOn (vault : Str) (hwm : ℕ) (t s : Tables) : Type 0 where
  pub later_rows : List JournalRow
  pub journal_grown : s.journal ≡ t.journal ++ later_rows
  pub later_beyond : (j : JournalRow) → Elem j later_rows → j.vault_id ≡ vault → hwm < j.rev
  pub nodes_stay :
      (j : JournalRow)
      → Elem j t.journal
      → any (is_node j.vault_id j.node_id) s.nodes ≡ any (is_node j.vault_id j.node_id) t.nodes

module _ (vault : Str) (hwm : ℕ) (t s : Tables) (on : GoesOn vault hwm t s) where
  beyond : (j : JournalRow) → Elem j on.later_rows → (j.vault_id == vault && leb j.rev hwm) ≡ false
  beyond j m = elim (Bool-cases (j.vault_id == vault)) [
    | inr f ↦ ground (arith, f)
    | inl e ↦ ground (arith, on.later_beyond j m ((str_eq.same_iff j.vault_id vault).0 e))
  ]

  is_latest-same :
      (j : JournalRow) → Elem j t.journal → is_latest s vault hwm j ≡ is_latest t vault hwm j
  is_latest-same j m = elim (Bool-cases (j.vault_id == vault)) [
    | inr f ↦ ground (arith, f)
    | inl e ↦
        let here : j.vault_id ≡ vault = (str_eq.same_iff j.vault_id vault).0 e in
        let none_later : any (is_later hwm j) on.later_rows ≡ false =
          any-none (is_later hwm j) on.later_rows (λ l i. rw here (ground (arith, beyond l i))) in
        rw
          (
            on.journal_grown,
            any-append (is_later hwm j) t.journal on.later_rows,
            none_later,
            on.nodes_stay j m,
          )
          (ground arith)
  ]

  -- Further writes leave the rows of a snapshot as they are.
  pub rows_between-GoesOn :
      (from : ℕ) → rows_between s vault from hwm ≡ rows_between t vault from hwm
  unfolding rows_between
  rows_between-GoesOn from =
      ap (λ js. sort_by by_rev (filter (after from) js))
        (ap (filter (is_latest s vault hwm)) on.journal_grown
          ∙ filter-append (is_latest s vault hwm) t.journal on.later_rows
          ∙ ap (λ js. filter (is_latest s vault hwm) t.journal ++ js)
              (filter-none (is_latest s vault hwm) on.later_rows
                (λ j m. ground (arith, beyond j m)))
          ∙ append_nil (filter (is_latest s vault hwm) t.journal)
          ∙ filter-same (is_latest s vault hwm) (is_latest t vault hwm) t.journal is_latest-same)
