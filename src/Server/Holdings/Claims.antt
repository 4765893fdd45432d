-- ===== src/Server/Holdings/Claims.antt =====
-- The checks of `user_blobs` in server/db/schema.sql, kept by the statements of
-- holdings.ts, retention.ts and collector.ts that write a claim.
use obsidian_syncserver.Prelude.{
  ℕ, ◌+◌, ◌<◌, ◌≡◌, refl, ◌↔◌, ◌⊎◌, inl, inr, Bool, true, false, not, Option, none, some, List, [],
  ◌∷◌, Str, filter, filter-Elem, any, Elem, Elem-append, str_eq, arith, Bool-cases, subst⁻¹,
}
use obsidian_syncserver.Server.Store.{Claim, Tables, is_null, update_where}
use obsidian_syncserver.Server.Holdings.{
  is_claim, fresh_claim, insert_or_update, one_more, settle_one, claim_blob, bind_blob,
  drop_unreferenced,
}
use obsidian_syncserver.Server.Retention.{drop_spent_claims}
use obsidian_syncserver.Server.Collector.{
  is_unbound, is_stale, settled, set_before, drop_unbound, clear_pending,
}

-- `row_must_be_referenced` and `pending_fields_travel_together`
abbrev pub Checked : Claim → Type 0
Checked ub =
    (0 < ub.refs_own + ub.refs_pending)
    × ((0 < ub.refs_pending) ↔ (is_null ub.pending_since ≡ false))

abbrev pub AllChecked : Tables → Type 0
AllChecked t = (ub : Claim) → Elem ub t.user_blobs → Checked ub

one_more-Checked : (ub : Claim) → Checked ub → Checked (one_more ub)
one_more-Checked ub (h, p) = (omega (arith, h), p)

settle_one-Checked : (ub : Claim) → Checked ub → Checked (settle_one ub)
settle_one-Checked ub (h, p) = (omega (arith, h), ground (arith, p))

module _ {A : Type 0} (p : A → Bool) (f : A → A) (a : A) where
  -- A row after an update is an updated old one, or an old one that was passed over.
  abbrev pub Traced : List A → Type 0
  Traced xs = ((x : A) × Elem x xs × (p x ≡ true) × (a ≡ f x)) ⊎ (Elem a xs × (p a ≡ false))

  more-Traced : (x : A) (xs : List A) → Traced xs → Traced (x ∷ xs)
  more-Traced x xs (inl (y, m, t, e)) = inl (y, inr m, t, e)
  more-Traced x xs (inr (m, t)) = inr (inr m, t)

  pub update_where-Elem : (xs : List A) → Elem a (update_where p f xs) → Traced xs
  update_where-Elem [] m = absurd m
  update_where-Elem (x ∷ xs) m = elim (Bool-cases (p x)) [
    | inl t ↦ hit t (update_where-Elem xs) (rw t at m)
    | inr g ↦ miss g (update_where-Elem xs) (rw g at m)
  ]
    where
      hit :
          p x ≡ true
          → (Elem a (update_where p f xs) → Traced xs)
          → (a ≡ f x) ⊎ Elem a (update_where p f xs)
          → Traced (x ∷ xs)
      hit t rest (inl e) = inl (x, inl refl, t, e)
      hit t rest (inr i) = more-Traced x xs (rest i)

      miss :
          p x ≡ false
          → (Elem a (update_where p f xs) → Traced xs)
          → (a ≡ x) ⊎ Elem a (update_where p f xs)
          → Traced (x ∷ xs)
      miss g rest (inl e) = inr (inl e, subst⁻¹ (λ y. p y ≡ false) e g)
      miss g rest (inr i) = more-Traced x xs (rest i)

fresh_claim-Checked : (user sha256 : Str) → Checked (fresh_claim user sha256)
fresh_claim-Checked user sha256 = (omega arith, ground arith)

update-Checked :
    (p : Claim → Bool) (f : Claim → Claim) (claims : List Claim)
    → ((ub : Claim) → Checked ub → Checked (f ub))
    → ((ub : Claim) → Elem ub claims → Checked ub)
    → (ub : Claim) → Elem ub (update_where p f claims)
    → Checked ub
update-Checked p f claims keeps c ub m = elim (update_where-Elem p f ub claims m) [
  | inl (x, i, t, e) ↦ subst⁻¹ Checked e (keeps x (c x i))
  | inr (i, g) ↦ c ub i
]

insert-Checked :
    (user sha256 : Str) (f : Claim → Claim) (claims : List Claim)
    → ((ub : Claim) → Checked ub → Checked (f ub))
    → ((ub : Claim) → Elem ub claims → Checked ub)
    → (ub : Claim) → Elem ub (insert_or_update user sha256 f claims)
    → Checked ub
unfolding insert_or_update
insert-Checked user sha256 f claims keeps c ub m =
    elim (Bool-cases (any (is_claim user sha256) claims)) [
      | inl t ↦ update-Checked (is_claim user sha256) f claims keeps c ub (rw t at m)
      | inr g ↦ new (Elem-append ub claims (fresh_claim user sha256 ∷ []) (rw g at m))
    ]
  where
    new : Elem ub claims ⊎ Elem ub (fresh_claim user sha256 ∷ []) → Checked ub
    new (inl i) = c ub i
    new (inr (inl e)) = subst⁻¹ Checked e (fresh_claim-Checked user sha256)
    new (inr (inr i)) = absurd i

settled-Checked : (ttl now : ℕ) (ub : Claim) → is_stale ttl now ub ≡ true → Checked (settled ub)
settled-Checked ttl now ub h = (ground arith, ground arith)

-- The upsert of a claim, the binding of it, the drop of an account's unreferenced claims, the
-- collector's two sweeps of pending claims and its drop of spent ones each keep the checks of their
-- table: on a claim there is something of its own or pending, and it has a date exactly while
-- something is pending.
pub claims-AllChecked :
    (t : Tables) (user sha256 : Str) (ttl now : ℕ)
    → AllChecked t
    → AllChecked (claim_blob user sha256 t)
      × AllChecked (bind_blob user sha256 t)
      × AllChecked (drop_unreferenced user t)
      × AllChecked (drop_unbound ttl now t).0
      × AllChecked (clear_pending ttl now t).0
      × AllChecked (drop_spent_claims t).0
unfolding claim_blob bind_blob drop_unreferenced drop_unbound clear_pending drop_spent_claims
claims-AllChecked t user sha256 ttl now c = (
  insert-Checked user sha256 one_more t.user_blobs one_more-Checked c,
  insert-Checked user sha256 settle_one t.user_blobs settle_one-Checked c,
  λ ub m. c ub (filter-Elem _ ub t.user_blobs m).0,
  λ ub m. c ub (filter-Elem _ ub t.user_blobs m).0,
  λ ub m. elim (update_where-Elem (is_stale ttl now) settled ub t.user_blobs m) [
    | inl (x, i, stale, e) ↦ subst⁻¹ Checked e (settled-Checked ttl now x stale)
    | inr (i, g) ↦ c ub i
  ],
  λ ub m. c ub (filter-Elem _ ub t.user_blobs m).0,
)

set_before-none : (o : Option ℕ) (now ttl : ℕ) → set_before o now ttl ≡ true → is_null o ≡ false
set_before-none none now ttl h = cc
set_before-none (some at) now ttl h = refl

-- After the two sweeps of a pass no claim is left whose oldest pending upload is older than the time
-- allowed, where the table's checks held before.
pub sweeps-expire :
    (t : Tables) (ttl now : ℕ) (ub : Claim)
    → AllChecked t
    → Elem ub (clear_pending ttl now (drop_unbound ttl now t).0).0.user_blobs
    → set_before ub.pending_since now ttl ≡ false
unfolding drop_unbound clear_pending
sweeps-expire t ttl now ub c m =
    elim (update_where-Elem (is_stale ttl now) settled ub
      (filter (λ r. not (is_unbound ttl now r)) t.user_blobs) m) [
        | inl (x, i, stale, e) ↦
            subst⁻¹ (λ (r : Claim). set_before r.pending_since now ttl ≡ false) e refl
        | inr (i, g) ↦
            let (j, h) = filter-Elem (λ r. not (is_unbound ttl now r)) ub t.user_blobs i in
            let (held, dated) = c ub j in
            ground (
              arith,
              Bool-cases (set_before ub.pending_since now ttl),
              set_before-none ub.pending_since now ttl,
            )
      ]
