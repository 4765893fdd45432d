-- ===== src/Plugin/ConflictTests.antt =====
-- A comparison of five lines with one change, folded around it.
use obsidian_syncserver.Prelude.{◌≡◌, refl, List, [], ◌∷◌, codes}
use obsidian_syncserver.Plugin.Conflict.{
  LineKind, same, added, DiffLine, line, skipped, mark, near_after, near_at, fold_rows, folded,
}
use obsidian_syncserver.Plugin.Conflict.Folded.{Folds, folded-Folds}

abbrev diff_line : LineKind → DiffLine
diff_line kind = record { kind = kind; text = codes "a" }

abbrev comparison : List DiffLine
comparison =
    diff_line same ∷ (diff_line same ∷ (diff_line added ∷ (diff_line same ∷ (diff_line same ∷ []))))

folded_run :
    folded comparison 1
    ≡ skipped 1
      ∷ (line (diff_line same)
          ∷ (line (diff_line added) ∷ (line (diff_line same) ∷ (skipped 1 ∷ []))))
unfolding folded fold_rows near_after near_at mark
folded_run = refl

folded-Folds_example : Folds (folded comparison 1) comparison
folded-Folds_example = folded-Folds comparison 1
