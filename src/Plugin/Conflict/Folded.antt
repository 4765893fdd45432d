-- ===== src/Plugin/Conflict/Folded.antt =====
-- What `folded` of plugin/src/conflict.ts leaves out: lines without a change, and it says how many.
use obsidian_syncserver.Prelude.{
  ℕ, zero, suc, ◌+◌, ◌-◌, ◌≤◌, ◌<◌, min, ◌≡◌, refl, ap, ◌∙◌, subst, inl, inr, Bool, true, false,
  List, [], ◌∷◌, ◌++◌, All, map, length, nat_beq, arith, Bool-cases, append_assoc, length-append,
}
use obsidian_syncserver.Plugin.Conflict.{
  DiffLine, DiffRow, line, skipped, is_same, mark, around, near_after, near_at, with_skipped,
  fold_rows, folded,
}

abbrev Unchanged : DiffLine → Type 0
Unchanged l = is_same l.kind ≡ true

-- Each row is the next line, or stands for as many unchanged lines as it says.
abbrev pub Folds : List DiffRow → List DiffLine → Type 0
Folds [] diff = diff ≡ []
Folds (line l ∷ rows) diff = (rest : List DiffLine) × (diff ≡ l ∷ rest) × Folds rows rest
Folds (skipped k ∷ rows) diff =
    (hidden : List DiffLine) × (rest : List DiffLine) × (diff ≡ hidden ++ rest)
    × (length hidden ≡ k)
    × All Unchanged hidden
    × Folds rows rest

-- The changed lines from this index on are near.
abbrev Shown : List Bool → ℕ → List DiffLine → Type 0
Shown near i [] = Unit
Shown near i (l ∷ diff) = (is_same l.kind ≡ false → near_at i near ≡ true) × Shown near (suc i) diff

near_at-mark :
    (low high k j : ℕ) (near : List Bool)
    → near_at j near ≡ true
    → near_at j (mark low high k near) ≡ true
unfolding near_at mark
near_at-mark low high k j [] h = cc
near_at-mark low high k zero (b ∷ near) h = ground (arith, h)
near_at-mark low high k (suc j) (b ∷ near) h = near_at-mark low high (suc k) j near h

mark-near_at :
    (low high k j : ℕ) (near : List Bool)
    → j < length near
    → low ≤ k + j
    → k + j ≤ high
    → near_at j (mark low high k near) ≡ true
unfolding near_at mark
mark-near_at low high k j [] l a b = absurd (omega arith)
mark-near_at low high k zero (c ∷ near) l a b = ground (arith, a, b)
mark-near_at low high k (suc j) (c ∷ near) l a b =
    mark-near_at low high (suc k) j near (omega arith) (omega arith) (omega arith)

length-mark : (low high k : ℕ) (near : List Bool) → length (mark low high k near) ≡ length near
unfolding mark
length-mark low high k [] = refl
length-mark low high k (b ∷ near) = ap suc (length-mark low high (suc k) near)

module _ (count context : ℕ) where
  near_at-around :
      (l : DiffLine) (i j : ℕ) (near : List Bool)
      → near_at j near ≡ true
      → near_at j (around count context l i near) ≡ true
  near_at-around l i j near h = elim (Bool-cases (is_same l.kind)) [
    | inl t ↦ rw t h
    | inr f ↦ rw f (near_at-mark _ _ 0 j near h)
  ]

  length-around :
      (l : DiffLine) (i : ℕ) (near : List Bool)
      → length (around count context l i near) ≡ length near
  length-around l i near = elim (Bool-cases (is_same l.kind)) [
    | inl t ↦ rw t refl
    | inr f ↦ rw f (length-mark _ _ 0 near)
  ]

  near_at-near_after :
      (i j : ℕ) (diff : List DiffLine) (near : List Bool)
      → near_at j near ≡ true
      → near_at j (near_after count context i diff near) ≡ true
  unfolding near_after
  near_at-near_after i j [] near h = h
  near_at-near_after i j (l ∷ diff) near h =
      near_at-near_after (suc i) j diff (around count context l i near)
        (near_at-around l i j near h)

  near_after-Shown :
      (i : ℕ) (diff : List DiffLine) (near : List Bool)
      → i + length diff ≡ count
      → length near ≡ count
      → Shown (near_after count context i diff near) i diff
  unfolding near_after
  near_after-Shown i [] near e len = tt
  near_after-Shown i (l ∷ diff) near e len = (
    (λ f. near_at-near_after (suc i) i diff (around count context l i near) (
        rw f (
          mark-near_at (i - context) (min (count - 1) (i + context)) 0 i near (omega arith)
            (omega arith) (omega arith)))),
    near_after-Shown (suc i) diff (around count context l i near) (omega arith)
        (length-around l i near ∙ len),
  )

with_skipped-Folds :
    (k : ℕ) (hidden rest : List DiffLine) (rows : List DiffRow)
    → length hidden ≡ k
    → All Unchanged hidden
    → Folds rows rest
    → Folds (with_skipped k rows) (hidden ++ rest)
with_skipped-Folds zero [] rest rows e u f = f
with_skipped-Folds zero (l ∷ hidden) rest rows e u f = absurd (omega (arith, e))
with_skipped-Folds (suc k) hidden rest rows e u f =
    let some_there : nat_beq (suc k) 0 ≡ false = ground arith in
    rw some_there (hidden, rest, refl, e, u, f)

All-last :
    (l : DiffLine) (hidden : List DiffLine)
    → All Unchanged hidden
    → Unchanged l
    → All Unchanged (hidden ++ (l ∷ []))
All-last l [] u h = (h, tt)
All-last l (m ∷ hidden) (v, u) h = (v, All-last l hidden u h)

fold_rows-Folds :
    (near : List Bool) (i k : ℕ) (diff hidden : List DiffLine)
    → length hidden ≡ k
    → All Unchanged hidden
    → Shown near i diff
    → Folds (fold_rows near i diff k) (hidden ++ diff)
unfolding fold_rows
fold_rows-Folds near i k [] hidden e u s = with_skipped-Folds k hidden [] [] e u refl
fold_rows-Folds near i k (l ∷ diff) hidden e u (shows, s) = elim (Bool-cases (near_at i near)) [
  | inl t ↦
      rw (fold_rows, t)
        (with_skipped-Folds k hidden (l ∷ diff) (line l ∷ fold_rows near (suc i) diff 0) e u
          (diff, refl, fold_rows-Folds near (suc i) 0 diff [] refl tt s))
  | inr f ↦
      let unchanged : Unchanged l = ground (arith, shows, f) in
      rw (fold_rows, f)
        (subst (Folds (fold_rows near (suc i) diff (suc k))) (append_assoc hidden (l ∷ []) diff) (
          fold_rows-Folds near (suc i) (suc k) diff (hidden ++ (l ∷ []))
            (length-append hidden (l ∷ []) ∙ omega (arith, e)) (All-last l hidden u unchanged) s))
]

length-unmarked : (diff : List DiffLine) → length (map (λ (l : DiffLine). false) diff) ≡ length diff
length-unmarked [] = refl
length-unmarked (l ∷ diff) = ap suc (length-unmarked diff)

-- The rows of a folded comparison, read in order, are the lines of the comparison: each row is the next
-- line, or stands for exactly as many lines as it says, none of which is a change.
pub folded-Folds : (diff : List DiffLine) (context : ℕ) → Folds (folded diff context) diff
unfolding folded
folded-Folds diff context =
    fold_rows-Folds _ 0 0 diff [] refl tt
      (near_after-Shown (length diff) context 0 diff _ (omega arith) (length-unmarked diff))
