-- ===== src/Server/Attempts.antt =====
-- server/src/auth/attempts.ts: the limiter on failed sign-ins. Times are milliseconds, and the
-- clock is an argument of each call.
pub mod Locking
pub mod Traces
use obsidian_syncserver.Prelude.{
  ℕ, ◌+◌, ◌-◌, ◌*◌, ◌/◌, ◌^◌, Bool, Option, none, some, List, [], ◌∷◌, ◌++◌, Str, Dict, lookup,
  insert, erase, ltb, leb, filter, length, min, if◌then◌else◌,
}

abbrev pub threshold : ℕ
threshold = 5

abbrev pub window_ms : ℕ
window_ms = 900000

abbrev pub base_lockout_ms : ℕ
base_lockout_ms = 60000

abbrev pub max_lockout_ms : ℕ
max_lockout_ms = 3600000

pub record Entry : Type 0 where
  pub failures : List ℕ
  pub locked_until : ℕ
  pub lockouts : ℕ

abbrev pub Entries : Type 0
Entries = Dict Entry

pub data Verdict : Type 0 where
  ok : Verdict
  retry_after : ℕ → Verdict

abbrev pub fresh : Entry
fresh = record { failures = []; locked_until = 0; lockouts = 0 }

-- The entry of a key, or a fresh one.
abbrev pub entry_or_fresh : Option Entry → Entry
entry_or_fresh none = fresh
entry_or_fresh (some e) = e

-- `Math.ceil(ms / 1000)`
abbrev pub ceil_seconds : ℕ → ℕ
ceil_seconds ms = (ms + 999) / 1000

unfoldable pub check_entry : Option Entry → ℕ → Verdict
check_entry none t = ok
check_entry (some e) t =
    if leb e.locked_until t then ok else retry_after (ceil_seconds (e.locked_until - t))

unfoldable pub check : Str → ℕ → Entries → Verdict
check key t s = check_entry (lookup key s) t

-- A clock that went back leaves `t - at` at 0, which is below the window as the negative number is.
abbrev pub recent : ℕ → List ℕ → List ℕ
recent t failures = filter (λ at. ltb (t - at) window_ms) failures

-- `Math.min(BASE_LOCKOUT_MS * 2 ** (lockouts - 1), MAX_LOCKOUT_MS)`
abbrev pub lockout_ms : ℕ → ℕ
lockout_ms lockouts = min (base_lockout_ms * 2 ^ (lockouts - 1)) max_lockout_ms

unfoldable pub fail_entry : Entry → ℕ → Entry
fail_entry e t =
    let failures = recent t e.failures ++ (t ∷ []) in
    if ltb (length failures) threshold then record e { failures = failures } else record {
      failures = [];
      locked_until = t + lockout_ms (e.lockouts + 1);
      lockouts = e.lockouts + 1;
    }

unfoldable pub fail : Str → ℕ → Entries → Entries
fail key t s = insert key (fail_entry (entry_or_fresh (lookup key s)) t) s

unfoldable pub succeed : Str → Entries → Entries
succeed key s = erase key s
