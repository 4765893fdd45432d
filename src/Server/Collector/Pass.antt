-- ===== src/Server/Collector/Pass.antt =====
-- `sweep` and `runCollector` of server/src/collector.ts: the statements in their order. Transaction
-- i has the clock `clock i`, and `others i` is what other sessions commit before it. How many parts
-- `sweepParts` removed is an argument.
pub mod Kept
use obsidian_syncserver.Prelude.{
  ℕ, Bool, true, false, Option, none, some, List, [], ◌∷◌, Str, length, if◌then◌else◌,
}
use obsidian_syncserver.Server.Store.{Tables}
use obsidian_syncserver.Server.Remove.{rootless}
use obsidian_syncserver.Server.Retention.{
  Marks, thin_versions, remove_spent_trash, drop_spent_claims, mark_unreferenced,
}
use obsidian_syncserver.Server.Collector.{
  Limits, Files, Removal, drop_unbound, clear_pending, sweep_condemned, remove_orphans,
  prune_journal, prune_problems,
}

pub record CollectorResult : Type 0 where
  pub versions_thinned : ℕ
  pub trash_removed : ℕ
  pub claims_dropped : ℕ
  pub blobs_marked : ℕ
  pub blobs_unmarked : ℕ
  pub parts_swept : ℕ
  pub unbound_dropped : ℕ
  pub pending_cleared : ℕ
  pub blobs_removed : ℕ
  pub journal_pruned : ℕ
  pub problems_pruned : ℕ
  pub skipped : Bool

abbrev pub empty_result : CollectorResult
empty_result = record {
  versions_thinned = 0;
  trash_removed = 0;
  claims_dropped = 0;
  blobs_marked = 0;
  blobs_unmarked = 0;
  parts_swept = 0;
  unbound_dropped = 0;
  pending_cleared = 0;
  blobs_removed = 0;
  journal_pruned = 0;
  problems_pruned = 0;
  skipped = false;
}

-- The tables and the files after a pass, with what it answers.
pub record Swept : Type 0 where
  pub tables : Tables
  pub files : Files
  pub result : CollectorResult

-- COMMIT of the first transaction, where the deferred reference of a vault to its root is checked.
abbrev pub committed : Option (Tables × ℕ) → Option (Tables × ℕ)
committed none = none
committed (some (t, count)) = if rootless t then none else some (t, count)

module _ (day_of week_of : ℕ → ℕ) (limits : Limits) (stuck : Str → Bool) (parts_swept : ℕ)
    (clock : ℕ → ℕ) (others : ℕ → Tables → Tables) where
  abbrev pub after_trash : ℕ → Files → Option (Tables × ℕ) → Option Swept
  after_trash thinned files none = none
  after_trash thinned files (some (t, trash)) =
      let (t1, unbound) = drop_unbound limits.unbound_blob_ttl (clock 1) (others 1 t) in
      let (t2, cleared) = clear_pending limits.unbound_blob_ttl (clock 2) (others 2 t1) in
      let (t3, claims) = drop_spent_claims (others 3 t2) in
      let (t4, marks) = mark_unreferenced (clock 3) t3 in
      let (t5, orphans) = sweep_condemned limits.gc_quarantine (clock 4) (others 4 t4) in
      let t6 = others 5 t5 in
      let removal = remove_orphans stuck t6 orphans files in
      let (t7, journal) = prune_journal limits.journal_ttl (clock 5) (others 6 t6) in
      let (t8, problems) = prune_problems (clock 6) (others 7 t7) in
      some (record {
        tables = t8;
        files = removal.files;
        result = record {
          versions_thinned = thinned;
          trash_removed = trash;
          claims_dropped = claims;
          blobs_marked = marks.marked;
          blobs_unmarked = marks.unmarked;
          parts_swept = parts_swept;
          unbound_dropped = unbound;
          pending_cleared = cleared;
          blobs_removed = removal.files_removed;
          journal_pruned = journal;
          problems_pruned = problems;
          skipped = false;
        };
      })

  -- `none` is a pass that throws.
  unfoldable pub sweep : Tables → Files → Option Swept
  sweep t files =
      let (t1, thinned) = thin_versions day_of week_of (clock 0) t in
      after_trash thinned files (committed (remove_spent_trash t1))

  -- `held` is the lock of another session.
  unfoldable pub run_collector : Bool → Tables → Files → Option Swept
  run_collector held t files =
      let pass = sweep t files in
      if held
      then some
          (record { tables = t; files = files; result = record empty_result { skipped = true } })
      else pass
