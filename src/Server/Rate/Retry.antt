-- ===== src/Server/Rate/Retry.antt =====
-- A refused upload fits when its wait is over.
use native.Mathlib.Nat.{le_refl}
use obsidian_syncserver.Prelude.{
  ℕ, ◌+◌, ◌-◌, ◌*◌, ◌≤◌, ◌<◌, ◌≡◌, List, [], ◌∷◌, Str, lookup, ltb, leb, Bool-cases, inl, inr,
  arith, lookup-insert_self, insert,
}
use obsidian_syncserver.Server.Rate.{
  Grant, Windows, ok, retry_after, window_or_empty, recent, total, wait_until, seconds_until,
  reserve, window_ms,
}
use obsidian_syncserver.Server.Rate.Bounds.{total-recent}

-- The grants stand in the order of their times, from `low` on.
abbrev pub OrderedFrom : ℕ → List Grant → Type 0
OrderedFrom low [] = Unit
OrderedFrom low (e ∷ grants) = (low ≤ e.at) × OrderedFrom e.at grants

wait_until-ge :
    (needed freed until : ℕ) (grants : List Grant) (low : ℕ)
    → OrderedFrom low grants
    → low + window_ms ≤ until
    → low + window_ms ≤ wait_until needed freed until grants
unfolding wait_until
wait_until-ge needed freed until [] low o h = h
wait_until-ge needed freed until (e ∷ grants) low (le, o) h = ground (
  arith,
  wait_until-ge needed (freed + e.bytes) (e.at + window_ms) grants e.at o
      (le_refl (e.at + window_ms)),
)

-- Where the loop stops, everything up to it has left the window, and that is enough.
total-after_wait :
    (needed freed until now : ℕ) (grants : List Grant) (low : ℕ)
    → OrderedFrom low grants
    → needed ≤ freed + total grants
    → freed < needed
    → wait_until needed freed until grants ≤ now
    → total (recent now grants) + needed ≤ freed + total grants
unfolding wait_until
total-after_wait needed freed until now [] low o enough more w = absurd (omega arith)
total-after_wait needed freed until now (e ∷ grants) low (le, o) enough more w =
    elim (Bool-cases (leb needed (freed + e.bytes))) [
      | inl stop ↦ ground (arith, total-recent now grants)
      | inr go ↦ ground (
        arith,
        wait_until-ge needed (freed + e.bytes) (e.at + window_ms) grants e.at o
            (le_refl (e.at + window_ms)),
        total-after_wait needed (freed + e.bytes) (e.at + window_ms) now grants e.at o
            (omega arith),
      )
    ]

recent-OrderedFrom :
    (t low : ℕ) (grants : List Grant) → OrderedFrom low grants → OrderedFrom low (recent t grants)
recent-OrderedFrom t low [] o = tt
recent-OrderedFrom t low (e ∷ grants) (le, o) = elim (Bool-cases (ltb (t - e.at) window_ms)) [
  | inl t' ↦ rw t' (le, recent-OrderedFrom t e.at grants o)
  | inr f ↦ rw f (recent-OrderedFrom t low grants (weaken low e.at grants le o))
]
  where
    weaken : (a b : ℕ) (l : List Grant) → a ≤ b → OrderedFrom b l → OrderedFrom a l
    weaken a b [] h k = tt
    weaken a b (g ∷ l) h (k, r) = (omega arith, r)

module _ (limit : ℕ) (user : Str) (bytes t : ℕ) (s : Windows) where
  abbrev kept : List Grant
  kept = recent t (window_or_empty (lookup user s))

  abbrev freed_at : ℕ
  freed_at = wait_until (total kept + bytes - limit) 0 t kept

  reserve_refused :
      {wait : ℕ}
      → (reserve limit user bytes t s).0 ≡ retry_after wait
      → (limit < total kept + bytes)
        × (wait ≡ seconds_until t freed_at)
        × ((reserve limit user bytes t s).1 ≡ insert user kept s)
  unfolding reserve
  reserve_refused h = (ground arith, ground arith, ground arith)

  reserve_fits :
      (now : ℕ)
      → total (recent now kept) + bytes ≤ limit
      → (reserve limit user bytes now (insert user kept s)).0 ≡ ok
  unfolding reserve
  reserve_fits now h = rw lookup-insert_self (ground arith)

-- An upload that was refused, and that is no larger than the limit, is accepted when it is tried
-- again after the wait that the refusal named, as long as the account made no other request and its
-- grants were recorded in the order of their times.
pub reserve-retry :
    (limit : ℕ) (user : Str) (bytes t wait now : ℕ) (s : Windows)
    → (reserve limit user bytes t s).0 ≡ retry_after wait
    → bytes ≤ limit
    → OrderedFrom 0 (window_or_empty (lookup user s))
    → t + 1000 * wait ≤ now
    → (reserve limit user bytes now (reserve limit user bytes t s).1).0 ≡ ok
reserve-retry limit user bytes t wait now s refused fits o later =
    let (over, w, after) = reserve_refused limit user bytes t s refused in
    let l = kept limit user bytes t s in
    rw after (
      reserve_fits limit user bytes t s now (
        omega (
          arith,
          total-after_wait (total l + bytes - limit) 0 t now l 0
              (recent-OrderedFrom t 0 (window_or_empty (lookup user s)) o) (omega arith)
              (omega arith) (omega (arith, w)),
        )))
