-- ===== src/Server/Retention/Ladder.antt =====
-- The retention ladder of server/src/retention.ts in words, and that the statement is the ladder.
use obsidian_syncserver.Prelude.{
  ℕ, ◌-◌, ◌*◌, ◌≤◌, ◌<◌, ◌≡◌, refl, ◌↔◌, ◌⊎◌, inl, inr, Bool, true, false, not, ◌&&◌, ◌||◌, Option,
  none, some, List, Elem, filter, all_at, all_of, Elem-filter, filter-Elem, filter-all, leb, nat_eq,
  str_eq, str_beq_iff, nat_beq_iff, ◌==◌, arith, Bool-cases, filter-none,
}
use obsidian_syncserver.Server.Store.{User, Vault, Node, Version, Tables, is_null, day_span}
use obsidian_syncserver.Server.Retention.{
  same_node, newest_in, node_of, vault_of, user_of, owner_of, thinned_row, thinned_joined, thinned,
  thin_versions,
}

-- No version of the same node, among those that `Same` picks, has a greater revision.
abbrev pub Newest : (Version → Type 0) → Version → List Version → Type 0
Newest Same v versions =
    (w : Version)
    → Elem w versions
    → w.vault_id ≡ v.vault_id
    → w.node_id ≡ v.node_id
    → Same w
    → w.rev ≤ v.rev

older_lem :
    (same : Version → Bool) (v w : Version)
    → (not (same_node v w && same w) || leb w.rev v.rev) ≡ true
    → w.vault_id ≡ v.vault_id
    → w.node_id ≡ v.node_id
    → same w ≡ true
    → w.rev ≤ v.rev
older_lem same v w h e1 e2 s =
    ground (arith, str_beq_iff w.vault_id v.vault_id, str_beq_iff w.node_id v.node_id)

older_back :
    (same : Version → Bool) (v w : Version)
    → (w.vault_id ≡ v.vault_id → w.node_id ≡ v.node_id → same w ≡ true → w.rev ≤ v.rev)
    → (not (same_node v w && same w) || leb w.rev v.rev) ≡ true
older_back same v w f = elim (Bool-cases (same_node v w && same w)) [
  | inr g ↦ rw g refl
  | inl t ↦
      let le : w.rev ≤ v.rev =
        f ((str_beq_iff w.vault_id v.vault_id).0 (ground arith))
          ((str_beq_iff w.node_id v.node_id).0 (ground arith)) (ground arith) in
      ground arith
]

newest_in_iff :
    (same : Version → Bool) (Same : Version → Type 0) (v : Version) (versions : List Version)
    → ((w : Version) → (same w ≡ true) ↔ Same w)
    → (newest_in same v versions ≡ true) ↔ Newest Same v versions
newest_in_iff same Same v versions agree = (
  λ h w m e1 e2 s.
      older_lem same v w
        (all_at (λ w. not (same_node v w && same w) || leb w.rev v.rev) versions w h m) e1 e2
        ((agree w).1 s),
  λ newest.
      all_of (λ w. not (same_node v w && same w) || leb w.rev v.rev) versions
        (λ w m. older_back same v w (λ e1 e2 s. newest w m e1 e2 ((agree w).0 s))),
)

module _ (day_of week_of : ℕ → ℕ) where
  -- What survives: the head of a live node, a version of the last 7 days, the newest of its day
  -- until 30 days, and the newest of its week until the account's own bound.
  abbrev pub Survives : Tables → ℕ → Version → Node → User → Type 0
  Survives t now v n u =
      ((is_null n.deleted_at ≡ true) × Newest (λ w. Unit) v t.versions)
      ⊎ (now - v.at < 7 * day_span)
      ⊎ ((now - v.at < 30 * day_span) × Newest (λ w. day_of w.at ≡ day_of v.at) v t.versions)
      ⊎ ((now - v.at < u.history_days * day_span)
          × Newest (λ w. week_of w.at ≡ week_of v.at) v t.versions)

  thinned_row_iff :
      (t : Tables) (now : ℕ) (v : Version) (n : Node) (u : User)
      → (thinned_row day_of week_of t now v n u ≡ false) ↔ Survives t now v n u
  thinned_row_iff t now v n u = ground (
    arith,
    newest_in_iff (λ w. true) (λ w. Unit) v t.versions (λ w. (λ e. tt, λ e. refl)),
    newest_in_iff (λ w. day_of w.at == day_of v.at) (λ w. day_of w.at ≡ day_of v.at) v t.versions
        (λ w. nat_beq_iff (day_of w.at) (day_of v.at)),
    newest_in_iff (λ w. week_of w.at == week_of v.at) (λ w. week_of w.at ≡ week_of v.at) v
        t.versions (λ w. nat_beq_iff (week_of w.at) (week_of v.at)),
  )

  -- A version outlives a thinning exactly when the ladder keeps it: it is the newest version of a
  -- live node, or it is younger than 7 days, or it is the newest of its day and younger than 30
  -- days, or it is the newest of its week and younger than its owner's `history_days`.
  pub thin_versions-Survives :
      (t : Tables) (now : ℕ) (v : Version) (n : Node) (va : Vault) (u : User)
      → Elem v t.versions
      → node_of t v ≡ some n
      → vault_of t v ≡ some va
      → user_of t va ≡ some u
      → Elem v ((thin_versions day_of week_of now t).0).versions ↔ Survives t now v n u
  unfolding thin_versions
  thin_versions-Survives t now v n va u m en ev eu =
      let row : thinned day_of week_of t now v ≡ thinned_row day_of week_of t now v n u =
        rw (en, ev, eu) refl in
      (
        λ kept. (thinned_row_iff t now v n u).0 (
            ground (
              arith,
              (filter-Elem (λ r. not (thinned day_of week_of t now r)) v t.versions kept).1,
              row,
            )),
        λ s.
            Elem-filter (λ r. not (thinned day_of week_of t now r)) v t.versions m
              (ground (arith, (thinned_row_iff t now v n u).1 s, row)),
      )

  newest_in-filter :
      (same p : Version → Bool) (v : Version) (versions : List Version)
      → newest_in same v versions ≡ true
      → newest_in same v (filter p versions) ≡ true
  newest_in-filter same p v versions h =
      all_of (λ w. not (same_node v w && same w) || leb w.rev v.rev) (filter p versions)
        (λ w m.
          all_at (λ w. not (same_node v w && same w) || leb w.rev v.rev) versions w h
            (filter-Elem p w versions m).0)

  thinned-filter :
      (t : Tables) (now : ℕ) (p : Version → Bool) (v : Version)
      → thinned day_of week_of t now v ≡ false
      → thinned day_of week_of (record t { versions = filter p t.versions }) now v ≡ false
  thinned-filter t now p v h = go (node_of t v) (owner_of day_of week_of t (vault_of t v)) h
    where
      go :
          (on : Option Node) (ou : Option User)
          → thinned_joined day_of week_of t now v on ou ≡ false
          → thinned_joined day_of week_of (record t { versions = filter p t.versions }) now v on ou
            ≡ false
      go (some n) (some u) f = ground (
        arith,
        newest_in-filter (λ w. true) p v t.versions,
        newest_in-filter (λ w. day_of w.at == day_of v.at) p v t.versions,
        newest_in-filter (λ w. week_of w.at == week_of v.at) p v t.versions,
      )
      go (some n) none f = refl
      go none ou f = refl

  -- Thinning the history a second time at the same moment removes nothing more.
  pub thin_versions-again :
      (t : Tables) (now : ℕ)
      → thin_versions day_of week_of now (thin_versions day_of week_of now t).0
        ≡ ((thin_versions day_of week_of now t).0, 0)
  unfolding thin_versions
  thin_versions-again t now =
      let spared : (v : Version) → Elem v kept → thinned day_of week_of again now v ≡ false = λ v m.
        thinned-filter t now (λ r. not (thinned day_of week_of t now r)) v
          (ground
            (arith, (filter-Elem (λ r. not (thinned day_of week_of t now r)) v t.versions m).1)) in
      rw
        (
          filter-all (λ r. not (thinned day_of week_of again now r)) kept
              (λ v m. rw (spared v m) refl),
          filter-none (thinned day_of week_of again now) kept spared,
        )
        refl
    where
      kept : List Version
      kept = filter (λ r. not (thinned day_of week_of t now r)) t.versions

      again : Tables
      again = record t { versions = kept }
