-- ===== src/Server/Rate.antt =====
-- server/src/blobs/rate.ts: the bytes that an account may upload in a minute. Times are
-- milliseconds, and the clock is an argument of the call.
pub mod Bounds
pub mod Retry
use obsidian_syncserver.Prelude.{
  ℕ, ◌+◌, ◌-◌, ◌/◌, Bool, Option, none, some, List, [], ◌∷◌, ◌++◌, Str, Dict, lookup, insert, ltb,
  leb, filter, max, if◌then◌else◌,
}

abbrev pub window_ms : ℕ
window_ms = 60000

pub record Grant : Type 0 where
  pub at : ℕ
  pub bytes : ℕ

abbrev pub Windows : Type 0
Windows = Dict (List Grant)

pub data Reply : Type 0 where
  ok : Reply
  retry_after : ℕ → Reply

abbrev pub window_or_empty : Option (List Grant) → List Grant
window_or_empty none = []
window_or_empty (some w) = w

-- A clock that went back leaves `t - at` at 0, which is below the window as the negative number is.
abbrev pub recent : ℕ → List Grant → List Grant
recent t grants = filter (λ (e : Grant). ltb (t - e.at) window_ms) grants

abbrev pub total : List Grant → ℕ
total [] = 0
total (e ∷ grants) = e.bytes + total grants

-- The loop over `recent` that finds when enough will have left the window.
unfoldable pub wait_until : ℕ → ℕ → ℕ → List Grant → ℕ
wait_until needed freed until [] = until
wait_until needed freed until (e ∷ grants) =
    let rest = wait_until needed (freed + e.bytes) (e.at + window_ms) grants in
    if leb needed (freed + e.bytes) then e.at + window_ms else rest

-- `Math.max(1, Math.ceil((waitUntil - t) / 1000))`
abbrev pub seconds_until : ℕ → ℕ → ℕ
seconds_until t until = max 1 ((until - t + 999) / 1000)

unfoldable pub reserve : ℕ → Str → ℕ → ℕ → Windows → Reply × Windows
reserve bytes_per_minute user bytes t s =
    let kept = recent t (window_or_empty (lookup user s)) in
    let used = total kept in
    if ltb bytes_per_minute (used + bytes)
    then (
      retry_after (seconds_until t (wait_until (used + bytes - bytes_per_minute) 0 t kept)),
      insert user kept s,
    )
    else (ok, insert user (kept ++ (record { at = t; bytes = bytes } ∷ [])) s)
