-- ===== src/Server/Collector.antt =====
-- server/src/collector.ts: one pass of the collector, and the timer that starts it. Each
-- transaction has a clock of its own, and other sessions may write between two of them. The walk of
-- the parts on disk (`sweepParts`) is not part of it.
pub mod Pass
pub mod Safety
use obsidian_syncserver.Prelude.{
  ℕ, ◌+◌, ◌-◌, ◌*◌, Bool, true, false, not, ◌&&◌, Option, none, some, List, [], ◌∷◌, map, Str, ◌==◌,
  filter, length, any, str_eq, ltb, nat_beq, contains, if◌then◌else◌,
}
use obsidian_syncserver.Server.Store.{
  Claim, Blob, JournalRow, Problem, Tables, delete_where, update_where, day_span,
}
use obsidian_syncserver.Server.Retention.{
  Marks, referenced, thin_versions, remove_spent_trash, drop_spent_claims, mark_unreferenced,
}

-- `cfg.limits`, in microseconds.
pub record Limits : Type 0 where
  pub unbound_blob_ttl : ℕ
  pub gc_quarantine : ℕ
  pub journal_ttl : ℕ

-- `at < now() - span`, where a NULL is never earlier.
abbrev pub before : ℕ → ℕ → ℕ → Bool
before at now span = ltb (at + span) now

abbrev pub set_before : Option ℕ → ℕ → ℕ → Bool
set_before none now span = false
set_before (some at) now span = before at now span

abbrev pub is_unbound : ℕ → ℕ → Claim → Bool
is_unbound ttl now ub =
    nat_beq ub.refs_own 0 && ltb 0 ub.refs_pending && set_before ub.pending_since now ttl

unfoldable pub drop_unbound : ℕ → ℕ → Tables → Tables × ℕ
drop_unbound ttl now t =
    let (kept, count) = delete_where (is_unbound ttl now) t.user_blobs in
    (record t { user_blobs = kept }, count)

abbrev pub is_stale : ℕ → ℕ → Claim → Bool
is_stale ttl now ub =
    ltb 0 ub.refs_own && ltb 0 ub.refs_pending && set_before ub.pending_since now ttl

abbrev pub settled : Claim → Claim
settled ub = record ub { refs_pending = 0; pending_since = none; pending_device_id = none }

unfoldable pub clear_pending : ℕ → ℕ → Tables → Tables × ℕ
clear_pending ttl now t = (
  record t { user_blobs = update_where (is_stale ttl now) settled t.user_blobs },
  length (filter (is_stale ttl now) t.user_blobs),
)

abbrev pub condemned : Tables → ℕ → ℕ → Blob → Bool
condemned t quarantine now b = set_before b.gc_marked_at now quarantine && not (referenced t b)

-- The DELETE with the storage keys that it returns.
unfoldable pub sweep_condemned : ℕ → ℕ → Tables → Tables × List Str
sweep_condemned quarantine now t = (
  record t { blobs = filter (λ b. not (condemned t quarantine now b)) t.blobs },
  map (λ (b : Blob). b.storage_key) (filter (condemned t quarantine now) t.blobs),
)

-- The keys among the orphans that some row of `blobs` has again.
abbrev pub claimed_keys : Tables → List Str → List Str
claimed_keys t orphans =
    filter (λ key. contains key orphans) (map (λ (b : Blob). b.storage_key) t.blobs)

abbrev pub Files : Type 0
Files = List Str

-- `store.remove`: a key whose file cannot be removed is an exception.
abbrev pub remove_file : (Str → Bool) → Str → Files → Option Files
remove_file stuck key files = if stuck key then none else some (filter (λ f. not (f == key)) files)

-- What the `try` leaves: the files, the count and the keys that were logged.
pub record Removal : Type 0 where
  pub files : Files
  pub files_removed : ℕ
  pub failed : List Str

abbrev pub after_remove : Str → Removal → Option Files → Removal
after_remove key r none = record r { failed = key ∷ r.failed }
after_remove key r (some files) = record r { files = files; files_removed = r.files_removed + 1 }

unfoldable pub remove_files : (Str → Bool) → List Str → List Str → Removal → Removal
remove_files stuck claimed [] r = r
remove_files stuck claimed (key ∷ orphans) r =
    let kept = remove_files stuck claimed orphans r in
    let next =
      remove_files stuck claimed orphans (after_remove key r (remove_file stuck key r.files)) in
    if contains key claimed then kept else next

-- From the keys that the DELETE returned to the end of the loop.
unfoldable pub remove_orphans : (Str → Bool) → Tables → List Str → Files → Removal
remove_orphans stuck t orphans files =
    remove_files stuck (claimed_keys t orphans) orphans
      (record { files = files; files_removed = 0; failed = [] })

unfoldable pub prune_journal : ℕ → ℕ → Tables → Tables × ℕ
prune_journal ttl now t =
    let (kept, count) = delete_where (λ (j : JournalRow). before j.at now ttl) t.journal in
    (record t { journal = kept }, count)

abbrev pub problem_ttl_days : ℕ
problem_ttl_days = 30

unfoldable pub prune_problems : ℕ → Tables → Tables × ℕ
prune_problems now t =
    let (kept, count) =
      delete_where (λ (p : Problem). before p.last_at now (problem_ttl_days * day_span))
        t.problems in
    (record t { problems = kept }, count)
