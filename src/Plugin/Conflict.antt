-- ===== src/Plugin/Conflict.antt =====
-- plugin/src/conflict.ts: `folded`, the comparison of a note with its conflict copy with the lines far
-- from any change left out.
pub mod Folded
use obsidian_syncserver.Prelude.{
  ℕ, zero, suc, ◌+◌, ◌-◌, min, Bool, true, false, not, ◌&&◌, ◌||◌, List, [], ◌∷◌, Str, map, length,
  leb, nat_beq, if◌then◌else◌,
}

pub data LineKind : Type 0 where
  same : LineKind
  removed : LineKind
  added : LineKind

pub record DiffLine : Type 0 where
  pub kind : LineKind
  pub text : Str

pub data DiffRow : Type 0 where
  line : DiffLine → DiffRow
  skipped : ℕ → DiffRow

abbrev pub is_same : LineKind → Bool
is_same same = true
is_same removed = false
is_same added = false

-- `for (let j = low; j <= high; j++) near[j] = true`, for a list from this index on.
unfoldable pub mark : ℕ → ℕ → ℕ → List Bool → List Bool
mark low high j [] = []
mark low high j (b ∷ near) = (b || (leb low j && leb j high)) ∷ mark low high (suc j) near

module _ (count context : ℕ) where
  abbrev pub around : DiffLine → ℕ → List Bool → List Bool
  around l i near =
      if is_same l.kind then near else mark (i - context) (min (count - 1) (i + context)) 0 near

  unfoldable pub near_after : ℕ → List DiffLine → List Bool → List Bool
  near_after i [] near = near
  near_after i (l ∷ diff) near = near_after (suc i) diff (around l i near)

-- `near[i]`
unfoldable pub near_at : ℕ → List Bool → Bool
near_at i [] = false
near_at zero (b ∷ near) = b
near_at (suc i) (b ∷ near) = near_at i near

abbrev pub with_skipped : ℕ → List DiffRow → List DiffRow
with_skipped k rows = if nat_beq k 0 then rows else skipped k ∷ rows

unfoldable pub fold_rows : List Bool → ℕ → List DiffLine → ℕ → List DiffRow
fold_rows near i [] k = with_skipped k []
fold_rows near i (l ∷ diff) k =
    let shown = fold_rows near (suc i) diff 0 in
    let hidden = fold_rows near (suc i) diff (suc k) in
    if near_at i near then with_skipped k (line l ∷ shown) else hidden

unfoldable pub folded : List DiffLine → ℕ → List DiffRow
folded diff context =
    fold_rows (near_after (length diff) context 0 diff (map (λ (l : DiffLine). false) diff)) 0 diff
      0
