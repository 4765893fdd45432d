-- ===== src/Server/Tests.antt =====
-- Runs of the server's decisions on small stores, and the theorems at concrete inputs.
use obsidian_syncserver.Prelude.{
  ℕ, ◌+◌, ◌*◌, ◌≤◌, ◌≡◌, refl, List, [], ◌∷◌, Str, codes, lookup, insert, arith, str_beq,
}
use obsidian_syncserver.Server.Attempts
use obsidian_syncserver.Server.Attempts.{check, fail, succeed}
use obsidian_syncserver.Server.Attempts.Locking.{
  check-fail_locks, check-retry, counted, locked_verdict,
}
use obsidian_syncserver.Server.Attempts.Traces.{Event, failed, run, failures_since, run-refused}
use obsidian_syncserver.Server.Rate
use obsidian_syncserver.Server.Rate.{reserve, Windows, recent, total}
use obsidian_syncserver.Server.Rate.Bounds.{Request, granted, granted-le-limit}
use obsidian_syncserver.Server.Rate.Retry.{reserve-retry, OrderedFrom}

abbrev user : Str
user = codes "u"

abbrev five_failures : List Event
five_failures =
    failed user 10
    ∷ (failed user 20
        ∷ (failed (codes "v") 25 ∷ (failed user 30 ∷ (failed user 40 ∷ (failed user 50 ∷ [])))))

locked_out : check user 60 (run five_failures) ≡ Attempts.retry_after 60
unfolding check Attempts.check_entry run fail Attempts.fail_entry insert lookup str_beq
locked_out = refl

run-refused_example : 5 ≤ failures_since user five_failures
run-refused_example = run-refused user 60 five_failures (λ e. cc (locked_out, e))

abbrev four_failures : Attempts.Entries
four_failures =
    (user, record { failures = 10 ∷ (20 ∷ (30 ∷ (40 ∷ []))); locked_until = 0; lockouts = 2 }) ∷ []

four_counted : counted user 50 four_failures ≡ 4
unfolding lookup str_beq
four_counted = refl

check-fail_locks_example :
    (span : ℕ) × (60000 ≤ span)
    × (span ≤ 3600000)
    × ((d : ℕ) → check user (50 + d) (fail user 50 four_failures) ≡ locked_verdict span d)
check-fail_locks_example = check-fail_locks user 50 four_failures (omega (arith, four_counted))

check-retry_example : check user (60 + 1000 * 60) (run five_failures) ≡ Attempts.ok
check-retry_example = check-retry user 60 60 (run five_failures) locked_out

abbrev uploads : List Request
uploads =
    record { user = user; bytes = 70; at = 1000 }
    ∷ (record { user = user; bytes = 50; at = 2000 }
        ∷ (record { user = user; bytes = 30; at = 3000 } ∷ []))

granted-le-limit_example : total (recent 4000 (granted 100 user uploads)) ≤ 100
granted-le-limit_example = granted-le-limit 100 user uploads 4000 (omega arith)

abbrev full_window : Windows
full_window =
    (user, record { at = 1000; bytes = 70 } ∷ (record { at = 2000; bytes = 20 } ∷ [])) ∷ []

refused : (reserve 100 user 50 3000 full_window).0 ≡ Rate.retry_after 58
unfolding reserve lookup insert str_beq Rate.wait_until
refused = refl

full_window-OrderedFrom : OrderedFrom 0 (Rate.window_or_empty (lookup user full_window))
unfolding lookup str_beq
full_window-OrderedFrom = omega arith

reserve-retry_example :
    (reserve 100 user 50 61000 (reserve 100 user 50 3000 full_window).1).0 ≡ Rate.ok
reserve-retry_example =
    reserve-retry 100 user 50 3000 58 61000 full_window refused (omega arith)
      full_window-OrderedFrom (omega arith)
