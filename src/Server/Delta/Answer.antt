-- ===== src/Server/Delta/Answer.antt =====
-- The handler of `GET /vaults/:vaultId/delta` (server/src/delta/routes.ts), without the account states
-- that ride on its answer.
use obsidian_syncserver.Prelude.{
  ℕ, zero, suc, ◌+◌, ◌≤◌, ◌≡◌, ◌≢◌, ◌⊎◌, ◌∙◌, refl, sym, ap, inl, inr, List, Elem, str_eq, ◌==◌,
  str_beq_iff, arith, min, true, false, not, Option, none, some, [], ◌∷◌, Str, nat_beq, nat_beq_iff,
  Bool-cases, if◌then◌else◌,
}
use obsidian_syncserver.Server.Store.{JournalRow, Vault, Tables}
use obsidian_syncserver.Server.Store.Rows.{one_where-Elem}
use obsidian_syncserver.Server.Quota.{owns_vault, vault_at}
use obsidian_syncserver.Server.Delta.{
  VaultPosition, CursorPayload, CursorRejection, Page, Whole, natural, minus, limit_of,
  read_position, position_of, least, min_rev, rejection_for, is_beyond, bound, cursor_at,
  delta_page,
}
use obsidian_syncserver.Server.Delta.Cursor.{
  CursorFault, Decoded, payload, fault, Signed, decode_cursor, decode_cursor-Signed,
}

pub data DeltaReply : Type 0 where
  not_found : DeltaReply
  -- 400
  faulty : CursorFault → DeltaReply
  -- 410
  stale : CursorRejection → DeltaReply
  answered : Page → DeltaReply
  -- The database refuses a LIMIT below zero.
  failed : DeltaReply

-- LIMIT 0 finds no row, and no row is more than a limit of -1.
abbrev pub page_below : Str → Str → VaultPosition → CursorPayload → ℕ → DeltaReply
page_below user vault at cursor zero = answered (record {
  changes = [];
  next_cursor = cursor_at user vault at (bound cursor at) (some (bound cursor at));
  has_more = true;
})
page_below user vault at cursor (suc n) = failed

module _ (sign : Str → Str) (parse : Str → Option CursorPayload) (t : Tables)
    (user vault : Str) where
  abbrev pub page_with : VaultPosition → CursorPayload → Whole → DeltaReply
  page_with at cursor (natural limit) = answered (delta_page t user vault at cursor limit)
  page_with at cursor (minus n) = page_below user vault at cursor n

  abbrev pub unless_rejected :
      Option CursorRejection → VaultPosition → CursorPayload → Whole → DeltaReply
  unless_rejected none at cursor limit = page_with at cursor limit
  unless_rejected (some reason) at cursor limit = stale reason

  abbrev pub answer_from : VaultPosition → Decoded → Whole → DeltaReply
  answer_from at (fault f) limit = faulty f
  answer_from at (payload cursor) limit = unless_rejected (rejection_for cursor at) at cursor limit

  -- A request without a cursor comes from a client that has never synced the vault.
  abbrev pub cursor_of : VaultPosition → Option Str → Decoded
  cursor_of at none = payload (cursor_at user vault at 0 none)
  cursor_of at (some []) = payload (cursor_at user vault at 0 none)
  cursor_of at (some (c ∷ token)) = decode_cursor sign parse (c ∷ token) user vault

  abbrev pub answer_at : Option VaultPosition → Option Str → Option Whole → DeltaReply
  answer_at none token limit = not_found
  answer_at (some at) token limit = answer_from at (cursor_of at token) (limit_of limit)

  unfoldable pub get_delta : Option Str → Option Whole → DeltaReply
  get_delta token limit =
      if not (owns_vault t user vault)
      then not_found
      else answer_at (read_position vault t) token limit

-- A cursor of the present epochs of the vault. Of the rows that its journal has, the first is no later
-- than the one after the cursor, or it has none.
abbrev pub Current : Tables → Str → CursorPayload → VaultPosition → Type 0
Current t vault cursor at =
    (cursor.restore ≡ at.restore_epoch)
    × (cursor.reset ≡ at.reset_epoch)
    × (((j : JournalRow) → Elem j t.journal → j.vault_id ≢ vault)
        ⊎ ((j : JournalRow) × Elem j t.journal × (j.vault_id ≡ vault) × (j.rev ≤ cursor.rev + 1)))

-- The first revision of the vault is one of its rows', and there is none only where it has no row.
abbrev Least : Str → List JournalRow → Option ℕ → Type 0
Least vault journal none = (j : JournalRow) → Elem j journal → j.vault_id ≢ vault
Least vault journal (some low) =
    (j : JournalRow) × Elem j journal × (j.vault_id ≡ vault) × (j.rev ≡ low)

min-cases : (a b : ℕ) → (min a b ≡ a) ⊎ (min a b ≡ b)
min-cases a b = ground arith

min_rev-Least :
    (vault : Str) (journal : List JournalRow) → Least vault journal (min_rev vault journal)
unfolding min_rev
min_rev-Least vault [] = λ j m e. m
min_rev-Least vault (j ∷ journal) = elim (Bool-cases (j.vault_id == vault)) [
  | inl h ↦
      rw (h, min_rev)
        (with_first ((str_beq_iff j.vault_id vault).0 h) (min_rev vault journal)
          (min_rev-Least vault journal))
  | inr f ↦ rw (f, min_rev) (passed f (min_rev vault journal) (min_rev-Least vault journal))
]
  where
    with_first :
        j.vault_id ≡ vault
        → (o : Option ℕ) → Least vault journal o
        → (l : JournalRow) × Elem l (j ∷ journal) × (l.vault_id ≡ vault) × (l.rev ≡ least j.rev o)
    with_first e none rest = (j, inl refl, e, refl)
    with_first e (some low) (l, m, f, g) = elim (min-cases j.rev low) [
      | inl h ↦ (j, inl refl, e, sym h)
      | inr h ↦ (l, inr m, f, g ∙ sym h)
    ]

    passed :
        (j.vault_id == vault) ≡ false
        → (o : Option ℕ) → Least vault journal o
        → Least vault (j ∷ journal) o
    passed f none rest = λ l m. elim m [
      | inl e ↦ λ same. ground (
        arith,
        f,
        (str_beq_iff j.vault_id vault).1 (sym (ap (λ (r : JournalRow). r.vault_id) e) ∙ same),
      )
      | inr i ↦ rest l i
    ]
    passed f (some low) (l, m, e, g) = (l, inr m, e, g)

rejection_for-Current :
    (t : Tables) (vault : Str) (cursor : CursorPayload) (at : VaultPosition)
    → at.oldest_journal_rev ≡ min_rev vault t.journal
    → rejection_for cursor at ≡ none
    → Current t vault cursor at
unfolding rejection_for
rejection_for-Current t vault cursor at oldest e =
    elim (Bool-cases (nat_beq cursor.restore at.restore_epoch)) [
      | inr f ↦ cc (rw (rejection_for, f) at e)
      | inl a ↦ elim (Bool-cases (nat_beq cursor.reset at.reset_epoch)) [
        | inr f ↦ cc (rw (rejection_for, a, f) at e)
        | inl b ↦ elim (Bool-cases (is_beyond cursor.rev at.oldest_journal_rev)) [
          | inl f ↦ cc (rw (rejection_for, a, b, f) at e)
          | inr c ↦ (
            (nat_beq_iff cursor.restore at.restore_epoch).0 a,
            (nat_beq_iff cursor.reset at.reset_epoch).0 b,
            reaches (min_rev vault t.journal) (min_rev-Least vault t.journal) (rw oldest at c),
          )
        ]
      ]
    ]
  where
    reaches :
        (o : Option ℕ)
        → Least vault t.journal o
        → is_beyond cursor.rev o ≡ false
        → ((j : JournalRow) → Elem j t.journal → j.vault_id ≢ vault)
          ⊎ ((j : JournalRow) × Elem j t.journal × (j.vault_id ≡ vault) × (j.rev ≤ cursor.rev + 1))
    reaches none nothing c = inl nothing
    reaches (some low) (j, m, e, same) c = inr (j, m, e, ground (arith, c, same))

-- The position has the journal of the vault that it was read for.
read_position-oldest :
    (t : Tables) (vault : Str) (at : VaultPosition)
    → read_position vault t ≡ some at
    → at.oldest_journal_rev ≡ min_rev vault t.journal
unfolding read_position
read_position-oldest t vault at e =
    go (vault_at t vault)
      (λ va h.
        (str_beq_iff va.id vault).0
          (one_where-Elem (λ (va : Vault). va.id == vault) t.vaults va h).1)
      e
  where
    go :
        (o : Option Vault)
        → ((va : Vault) → o ≡ some va → va.id ≡ vault)
        → position_of t o ≡ some at
        → at.oldest_journal_rev ≡ min_rev vault t.journal
    go none own e = cc
    go (some va) own e =
        let same : record {
          head_rev = va.head_rev;
          reset_epoch = va.reset_epoch;
          restore_epoch = t.restore_epoch;
          oldest_journal_rev = min_rev va.id t.journal;
        }
            ≡ at =
          cc in
        sym (ap (λ (p : VaultPosition). p.oldest_journal_rev) same)
        ∙ ap (λ v. min_rev v t.journal) (own va refl)

module _ (sign : Str → Str) (parse : Str → Option CursorPayload) (t : Tables) (user vault : Str)
    (limit : Option Whole) (page : Page) where
  -- A page is answered to a request with a cursor only if its account owns the vault, the token
  -- carries the server's signature of a payload for this account and this vault, the payload is of
  -- the present epochs, and the vault's journal has a row no later than the one after the payload's
  -- revision, or no row at all.
  pub get_delta-Current :
      (c : ℕ) (token : Str)
      → get_delta sign parse t user vault (some (c ∷ token)) limit ≡ answered page
      → (owns_vault t user vault ≡ true)
        × ((at : VaultPosition) × (cursor : CursorPayload) × (read_position vault t ≡ some at)
            × Signed sign parse (c ∷ token) user vault cursor
            × Current t vault cursor at)
  unfolding get_delta
  get_delta-Current c token e = elim (Bool-cases (owns_vault t user vault)) [
    | inr f ↦ cc (rw (get_delta, f) at e)
    | inl o ↦ (o, found (read_position vault t) refl (rw (get_delta, o) at e))
  ]
    where
      taken :
          (at : VaultPosition) (cursor : CursorPayload) (w : Whole) (o : Option CursorRejection)
          → at.oldest_journal_rev ≡ min_rev vault t.journal
          → rejection_for cursor at ≡ o
          → unless_rejected sign parse t user vault o at cursor w ≡ answered page
          → Current t vault cursor at
      taken at cursor w none oldest h e = rejection_for-Current t vault cursor at oldest h
      taken at cursor w (some r) oldest h e = cc

      decoded :
          (at : VaultPosition) (w : Whole) (d : Decoded)
          → at.oldest_journal_rev ≡ min_rev vault t.journal
          → decode_cursor sign parse (c ∷ token) user vault ≡ d
          → answer_from sign parse t user vault at d w ≡ answered page
          → (cursor : CursorPayload) × Signed sign parse (c ∷ token) user vault cursor
            × Current t vault cursor at
      decoded at w (fault f) oldest h e = cc
      decoded at w (payload cursor) oldest h e = (
        cursor,
        decode_cursor-Signed sign parse (c ∷ token) user vault cursor h,
        taken at cursor w (rejection_for cursor at) oldest refl e,
      )

      found :
          (o : Option VaultPosition)
          → read_position vault t ≡ o
          → answer_at sign parse t user vault o (some (c ∷ token)) limit ≡ answered page
          → (at : VaultPosition) × (cursor : CursorPayload) × (read_position vault t ≡ some at)
            × Signed sign parse (c ∷ token) user vault cursor
            × Current t vault cursor at
      found none h e = cc
      found (some at) h e =
          let (cursor, signed, current) =
            decoded at (limit_of limit) (decode_cursor sign parse (c ∷ token) user vault)
              (read_position-oldest t vault at h) refl e in
          (at, cursor, h, signed, current)
