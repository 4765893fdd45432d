-- ===== src/Plugin/Rename/Destination.antt =====
-- Where the children of a vanished folder turned up.
use obsidian_syncserver.Prelude.{
  ◌≤◌, ◌<◌, ◌-◌, ap, ◌∙◌, ◌++◌, length, drop, take, length-append, drop-append, take-append,
  ends_with, contains→Elem, str_beq_iff, true, false, ◌≡◌, ◌⊎◌, inl, inr, refl, some, List, [], ◌∷◌,
  Str, Dict, all, all_at, all_of, Elem, contains, has, str_eq, sort_by, Sorted, sort_by-Sorted,
  sort_by-Elem, Elem-sort_by, Option-cases, arith, subst, subst⁻¹,
}
use obsidian_syncserver.Plugin.Rename.{
  TreeNode, FileMeta, Inside, Fit, slash, folder_above, join, matching_bytes, fit_at, lands,
  fits_among, best_fit, by_matching, destination_of,
}

-- Every child stands at its relative path below `to`, where the server holds nothing.
abbrev pub Arrived : List Inside → Str → List Str → Dict TreeNode → Type 0
Arrived children to here tree =
    (c : Inside)
    → Elem c children
    → (contains (join to c.rel) here ≡ true) × (has (join to c.rel) tree ≡ false)

module _ (children : List Inside) (first : Inside) (here : List Str) (tree : Dict TreeNode)
    (meta : Dict FileMeta) where
  abbrev IsFit : Fit → Type 0
  IsFit f =
      (all (lands here tree f.to) children ≡ true)
      × (f.matching ≡ matching_bytes children f.to meta)

  fit_at-IsFit :
      (path : Str) (f : Fit) → fit_at children first here tree meta path ≡ some f → IsFit f
  unfolding fit_at
  fit_at-IsFit path f h = ground arith

  fits_among-IsFit :
      (paths : List Str) (f : Fit)
      → Elem f (fits_among children first here tree meta paths)
      → IsFit f
  unfolding fits_among
  fits_among-IsFit [] f m = absurd m
  fits_among-IsFit (path ∷ paths) f m =
      elim (Option-cases (fit_at children first here tree meta path)) [
        | inl e ↦ fits_among-IsFit paths f (rw (e, fits_among) at m)
        | inr (g, e) ↦ head_or_rest g e (fits_among-IsFit paths f) (rw (e, fits_among) at m)
      ]
    where
      head_or_rest :
          (g : Fit)
          → fit_at children first here tree meta path ≡ some g
          → (Elem f (fits_among children first here tree meta paths) → IsFit f)
          → (f ≡ g) ⊎ Elem f (fits_among children first here tree meta paths)
          → IsFit f
      head_or_rest g e rest (inl p) = subst⁻¹ IsFit p (fit_at-IsFit path g e)
      head_or_rest g e rest (inr i) = rest i

-- The folder chosen beats, in matching bytes, every other below which every child stands.
abbrev pub IsBest : List Inside → List Str → Dict TreeNode → Dict FileMeta → Str → Type 0
IsBest children here tree meta to =
    (other : Str)
    → Arrived children other here tree
    → (other ≡ to) ⊎ (matching_bytes children other meta < matching_bytes children to meta)

ends_with-append : (d r : Str) → ends_with (d ++ r) r ≡ true
unfolding ends_with
ends_with-append d r =
    let gap : length (d ++ r) - length r ≡ length d = omega (arith, length-append d r) in
    let rest : drop (length (d ++ r) - length r) (d ++ r) ≡ r =
      ap (λ n. drop n (d ++ r)) gap ∙ drop-append d r in
    ground (
      arith,
      (str_beq_iff (drop (length (d ++ r) - length r) (d ++ r)) r).1 rest,
      length-append d r,
    )

folder_above-join : (d r : Str) → folder_above (join d r) r ≡ d
folder_above-join d r =
    let gap : length (join d r) - length r - 1 ≡ length d =
      omega (arith, length-append d (slash ∷ r)) in
    ap (λ n. take n (join d r)) gap ∙ take-append d (slash ∷ r)

-- A folder below which every child stands is seen at the path of the first child.
module _ (children : List Inside) (first : Inside) (here : List Str) (tree : Dict TreeNode)
    (meta : Dict FileMeta) (d : Str) where
  abbrev fit : Fit
  fit = record { to = d; matching = matching_bytes children d meta }

  fit_at-Arrived :
      Elem first children
      → Arrived children d here tree
      → fit_at children first here tree meta (join d first.rel) ≡ some fit
  unfolding fit_at
  fit_at-Arrived m arrived =
      let landed : all (lands here tree d) children ≡ true =
        all_of (lands here tree d) children (λ c i. ground (arith, arrived c i)) in
      rw
        (
          ends_with-append d (slash ∷ first.rel),
          (arrived first m).1,
          folder_above-join d first.rel,
          landed,
        )
        refl

  fits_among-has :
      (paths : List Str) (path : Str)
      → Elem path paths
      → fit_at children first here tree meta path ≡ some fit
      → Elem fit (fits_among children first here tree meta paths)
  unfolding fits_among
  fits_among-has [] path m e = absurd m
  fits_among-has (p ∷ paths) path (inl same) e =
      let e' : fit_at children first here tree meta p ≡ some fit =
        subst (λ q. fit_at children first here tree meta q ≡ some fit) same e in
      rw (fits_among, e') (inl refl)
  fits_among-has (p ∷ paths) path (inr m) e =
      let rest = fits_among-has paths path m e in
      elim (Option-cases (fit_at children first here tree meta p)) [
        | inl f ↦ rw (fits_among, f) rest
        | inr (g, f) ↦ rw (fits_among, f) (inr rest)
      ]

best_fit_first :
    (l : List Fit) (to : Str)
    → Sorted by_matching l
    → best_fit l ≡ some to
    → (f : Fit) × Elem f l
      × (f.to ≡ to)
      × ((g : Fit) → Elem g l → (g.to ≡ to) ⊎ (g.matching < f.matching))
best_fit_first [] to s h = cc
best_fit_first (f ∷ []) to s h =
    (f, inl refl, cc, λ g m. elim m [ inl e ↦ inl (cc) | inr i ↦ absurd i ])
best_fit_first (f ∷ g ∷ l) to (low, (low', s)) h = (f, inl refl, ground arith, λ w m. beats w m)
  where
    less : (w : Fit) → w.matching ≤ g.matching → w.matching < f.matching
    less w le = ground (arith, low g (inl refl))

    beats : (w : Fit) → (w ≡ f) ⊎ ((w ≡ g) ⊎ Elem w l) → (w.to ≡ to) ⊎ (w.matching < f.matching)
    beats w (inl e) = inl (subst⁻¹ (λ (v : Fit). v.to ≡ to) e (ground arith))
    beats w (inr (inl e)) =
        inr (less w (subst⁻¹ (λ (v : Fit). v.matching ≤ g.matching) e (omega arith)))
    beats w (inr (inr m)) = inr (less w (ground (arith, low' w m)))

by_matching-Sorted : (l : List Fit) → Sorted by_matching (sort_by by_matching l)
by_matching-Sorted = sort_by-Sorted by_matching (λ a b h. ground arith) (λ a b c h k. ground arith)

-- The destination of a folder move is a folder below which every child stands at its old relative
-- path, on this device and not on the server, and every other folder of which that holds has strictly
-- fewer files with the old bytes.
pub destination_of_lem :
    (first : Inside) (more : List Inside) (here : List Str) (tree : Dict TreeNode)
    (meta : Dict FileMeta) (to : Str)
    → destination_of (first ∷ more) here tree meta ≡ some to
    → Arrived (first ∷ more) to here tree × IsBest (first ∷ more) here tree meta to
unfolding destination_of
destination_of_lem first more here tree meta to h =
    let children = first ∷ more in
    let fits = fits_among children first here tree meta here in
    let (f, m, e, best) =
      best_fit_first (sort_by by_matching fits) to (by_matching-Sorted fits) h in
    let (landed, count) =
      fits_among-IsFit children first here tree meta here f (sort_by-Elem by_matching f fits m) in
    let landed' = subst (λ t. all (lands here tree t) children ≡ true) e landed in
    let count' : f.matching ≡ matching_bytes children to meta =
      count ∙ ap (λ t. matching_bytes children t meta) e in
    (
      λ c i. let l = all_at (lands here tree to) children c landed' i in ground arith,
      λ other arrived.
          let seen =
            fits_among-has children first here tree meta other here (join other first.rel)
              (contains→Elem (join other first.rel) here (arrived first (inl refl)).0)
              (fit_at-Arrived children first here tree meta other (inl refl) arrived) in
          elim (best (fit children first here tree meta other)
            (Elem-sort_by by_matching _ fits seen)) [
              | inl p ↦ inl p
              | inr q ↦ inr (subst (λ k. matching_bytes children other meta < k) count' q)
            ],
    )
