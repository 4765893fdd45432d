-- ===== src/Server/Store/Rows.antt =====
-- The row that a query by key finds, and the tests for NULL (server/db/schema.sql).
use obsidian_syncserver.Prelude.{
  ◌≡◌, refl, sym, subst, inl, inr, Bool, true, some, List, [], ◌∷◌, Elem, Bool-cases, not, Option,
  none, ◌≢◌, ◌↔◌,
}
use obsidian_syncserver.Server.Store.{one_where, is_null}

pub one_where-Elem :
    {A : Type 0} (p : A → Bool) (xs : List A) (a : A)
    → one_where p xs ≡ some a
    → Elem a xs × (p a ≡ true)
one_where-Elem p [] a e = cc
one_where-Elem p (x ∷ xs) a e = elim (Bool-cases (p x)) [
  | inl t ↦
      let same : some x ≡ some a = rw t at e in
      let same' : x ≡ a = cc in (inl (sym same'), subst (λ y. p y ≡ true) same' t)
  | inr f ↦ let (m, h) = one_where-Elem p xs a (rw f at e) in (inr m, h)
]

pub is_null_iff : {A : Type 0} (o : Option A) → (is_null o ≡ true) ↔ (o ≡ none)
is_null_iff none = (λ h. refl, λ h. refl)
is_null_iff (some a) = (λ h. cc, λ h. cc)

pub not_null_iff : {A : Type 0} (o : Option A) → (not (is_null o) ≡ true) ↔ (o ≢ none)
not_null_iff none = (λ h. cc, λ h. absurd (h refl))
not_null_iff (some a) = (λ h. cc, λ h. refl)
