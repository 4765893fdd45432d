-- ===== src/Server/Attempts/Locking.antt =====
-- One key's entry: how long a lockout lasts, and when it ends.
use native.Mathlib.Nat.{one-le-pow}
use obsidian_syncserver.Prelude.{
  ℕ, ◌+◌, ◌-◌, ◌*◌, ◌≤◌, ◌<◌, ◌≡◌, ◌⊎◌, inl, inr, Option, none, some, [], ◌∷◌, ◌++◌, Str, length,
  lookup, length-append, lookup-insert, str_beq_iff, lt→ltb, ◌≢◌, refl, subst, ◌∙◌, ltb, leb, arith,
  if◌then◌else◌,
}
use obsidian_syncserver.Server.Attempts.{
  Entry, Entries, fail, fresh, entry_or_fresh, Verdict, ok, retry_after, threshold, lockout_ms,
  check, check_entry, fail_entry, recent, ceil_seconds,
}

-- A refusal names a wait after which the same check, with no attempt made meanwhile, is passed.
pub check-retry :
    (key : Str) (t r : ℕ) (s : Entries)
    → check key t s ≡ retry_after r
    → check key (t + 1000 * r) s ≡ ok
unfolding check check_entry
check-retry key t r s h = ground arith

-- A lockout lasts from one minute to one hour, however often the key was locked before.
pub lockout_ms_bounds : (n : ℕ) → (60000 ≤ lockout_ms n) × (lockout_ms n ≤ 3600000)
lockout_ms_bounds n = omega (arith, one-le-pow (n - 1) 2 (omega arith))

recent_fail_count :
    (e : Entry) (t : ℕ)
    → length (recent t e.failures ++ (t ∷ [])) ≡ length (recent t e.failures) + 1
recent_fail_count e t = length-append (recent t e.failures) (t ∷ [])

fail_entry_below :
    (e : Entry) (t : ℕ)
    → length (recent t e.failures) < 4
    → fail_entry e t ≡ record e { failures = recent t e.failures ++ (t ∷ []) }
unfolding fail_entry
fail_entry_below e t h = rw (
    lt→ltb (length (recent t e.failures ++ (t ∷ []))) threshold
      (omega (arith, recent_fail_count e t)))

fail_entry_at :
    (e : Entry) (t : ℕ)
    → 4 ≤ length (recent t e.failures)
    → fail_entry e t ≡ record {
      failures = [];
      locked_until = t + lockout_ms (e.lockouts + 1);
      lockouts = e.lockouts + 1;
    }
unfolding fail_entry
fail_entry_at e t h = ground (arith, recent_fail_count e t)

-- The failures of a key that still count at `t`.
abbrev pub counted : Str → ℕ → Entries → ℕ
counted key t s = length (recent t (entry_or_fresh (lookup key s)).failures)

-- What every check of the key says, `d` milliseconds after a failure that locks it for `span`.
abbrev pub locked_verdict : ℕ → ℕ → Verdict
locked_verdict span d = if ltb d span then retry_after (ceil_seconds (span - d)) else ok

check-fail_key :
    (key : Str) (t now : ℕ) (s : Entries)
    → check key now (fail key t s)
      ≡ check_entry (some (fail_entry (entry_or_fresh (lookup key s)) t)) now
unfolding check fail
check-fail_key key t now s = rw lookup-insert (rw ((str_beq_iff key key).1 refl))

-- The failure that is the fifth inside the window locks its key for a span between one minute and
-- one hour: every check in that span is refused with the seconds that are left, rounded up, and
-- every check after it passes.
pub check-fail_locks :
    (key : Str) (t : ℕ) (s : Entries)
    → 4 ≤ counted key t s
    → (span : ℕ) × (60000 ≤ span)
      × (span ≤ 3600000)
      × ((d : ℕ) → check key (t + d) (fail key t s) ≡ locked_verdict span d)
unfolding check_entry
check-fail_locks key t s h =
    let e = entry_or_fresh (lookup key s) in
    let (low, high) = lockout_ms_bounds (e.lockouts + 1) in
    (
      lockout_ms (e.lockouts + 1),
      low,
      high,
      λ d.
          rw (check-fail_key key t (t + d) s, fail_entry_at e t h)
            (locked_at t d (lockout_ms (e.lockouts + 1))),
    )
  where
    locked_at :
        (t d span : ℕ)
        → (if leb (t + span) (t + d) then ok else retry_after (ceil_seconds (t + span - (t + d))))
          ≡ locked_verdict span d
    locked_at t d span = ground arith

below_keeps :
    (o : Option Entry) (t now : ℕ)
    → length (recent t (entry_or_fresh o).failures) < 4
    → check_entry (some (fail_entry (entry_or_fresh o) t)) now ≡ check_entry o now
unfolding check_entry
below_keeps none t now h = rw (fail_entry_below fresh t h) (ground arith)
below_keeps (some e) t now h = rw (fail_entry_below e t h)

-- A failure changes no verdict of another key, and none of its own key before it is the fifth
-- inside the window.
pub check-fail_other :
    (key other : Str) (t now : ℕ) (s : Entries)
    → (key ≢ other) ⊎ ((key ≡ other) × (counted key t s < 4))
    → check other now (fail key t s) ≡ check other now s
check-fail_other key other t now s (inl h) =
    unfold check fail in rw lookup-insert (ground (arith, str_beq_iff key other))
check-fail_other key other t now s (inr (e, h)) =
    subst (λ k. check k now (fail key t s) ≡ check k now s) e
      (check-fail_key key t now s ∙ (unfold check in below_keeps (lookup key s) t now h))
