-- ===== src/Server/Attempts/Traces.antt =====
-- Any sequence of sign-in attempts, from an empty limiter.
use mathlib.Core.List.{foldl}
use obsidian_syncserver.Prelude.{
  ℕ, ◌-◌, ◌+◌, ◌*◌, ◌≤◌, ◌≡◌, ◌≢◌, refl, Option, none, some, List, [], ◌∷◌, Str, length, lookup,
  lookup-insert, lookup-erase, length-append, length-filter, ltb, str_eq, subst⁻¹, str_beq-cases,
  ◌⊎◌, ◌==◌, arith, if◌then◌else◌, Bool-cases, inl, inr,
}
use obsidian_syncserver.Server.Attempts.{
  Entry, Entries, ok, check, check_entry, fail, succeed, fail_entry, entry_or_fresh, recent,
  window_ms,
}

-- What the sign-in route reports: a wrong password or a right one.
pub data Event : Type 0 where
  failed : Str → ℕ → Event
  succeeded : Str → Event

unfoldable pub step : Entries → Event → Entries
step s (failed key t) = fail key t s
step s (succeeded key) = succeed key s

unfoldable pub run : List Event → Entries
unfolding step
run events = foldl step [] events

-- The failures of a key since its last success.
pub tally : Str → ℕ → Event → ℕ
tally key n (failed k t) = if k == key then n + 1 else n
tally key n (succeeded k) = if k == key then 0 else n

pub failures_since : Str → List Event → ℕ
unfolding tally
failures_since key events = foldl (tally key) 0 events

-- An entry never stands for more failures than there were, and no lock is set without a lockout.
IsBacked : ℕ → Option Entry → Type 0
IsBacked n none = Unit
IsBacked n (some e) =
    (e.lockouts * 5 + length e.failures ≤ n) × ((e.locked_until ≡ 0) ⊎ (1 ≤ e.lockouts))

fail_entry-IsBacked :
    (n t : ℕ) (o : Option Entry)
    → IsBacked n o
    → IsBacked (n + 1) (some (fail_entry (entry_or_fresh o) t))
unfolding IsBacked fail_entry
fail_entry-IsBacked n t none b = (omega arith, inl refl)
fail_entry-IsBacked n t (some e) (count, lock) =
    let kept = recent t e.failures in
    let shrunk = length-filter (λ at. ltb (t - at) window_ms) e.failures in
    let grown = length-append kept (t ∷ []) in ground (arith, shrunk, grown)

step-IsBacked :
    (key : Str) (n : ℕ) (s : Entries) (e : Event)
    → IsBacked n (lookup key s)
    → IsBacked (tally key n e) (lookup key (step s e))
unfolding step tally fail succeed
step-IsBacked key n s (failed k t) b = elim (str_beq-cases k key) [
  | inl (yes', e) ↦
      rw (lookup-insert, yes')
        (fail_entry-IsBacked n t (lookup k s) (subst⁻¹ (λ j. IsBacked n (lookup j s)) e b))
  | inr (no', e) ↦ rw (lookup-insert, no') b
]
step-IsBacked key n s (succeeded k) b = elim (Bool-cases (k == key)) [
  | inl yes' ↦ rw (lookup-erase, yes') (unfold IsBacked in tt)
  | inr no' ↦ rw (lookup-erase, no') b
]

run-IsBacked :
    (key : Str) (events : List Event) (n : ℕ) (s : Entries)
    → IsBacked n (lookup key s)
    → IsBacked (foldl (tally key) n events) (lookup key (foldl step s events))
run-IsBacked key [] n s b = b
run-IsBacked key (e ∷ events) n s b =
    run-IsBacked key events (tally key n e) (step s e) (step-IsBacked key n s e b)

refused_needs : (n t : ℕ) (o : Option Entry) → IsBacked n o → check_entry o t ≢ ok → 5 ≤ n
unfolding IsBacked check_entry
refused_needs n t none b h = absurd (h refl)
refused_needs n t (some e) (count, lock) h = ground arith

-- After any sequence of attempts, a key is refused only if it has failed at least five times since
-- its last success, whatever happened to other keys.
pub run-refused :
    (key : Str) (t : ℕ) (events : List Event)
    → check key t (run events) ≢ ok
    → 5 ≤ failures_since key events
unfolding run failures_since check
run-refused key t events h =
    refused_needs (foldl (tally key) 0 events) t (lookup key (foldl step [] events))
      (run-IsBacked key events 0 [] (unfold IsBacked lookup in tt)) h
