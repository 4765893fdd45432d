-- ===== src/Plugin/Unseen/Seen.antt =====
-- What clears a mark of plugin/src/unseen.ts, and what does not.
use obsidian_syncserver.Prelude.{
  ℕ, ◌≡◌, refl, ◌∙◌, true, false, not, Option, none, some, List, [], ◌∷◌, Str, all, contains,
  lookup, insert, lookup-insert, lookup-insert_self, lookup-filter, filter-NodupKeys,
  insert-NodupKeys, kept_if, NodupKeys, str_eq, str_beq_iff, option_eq, arith, Bool-cases, inl, inr,
  if◌then◌else◌,
}
use obsidian_syncserver.Plugin.Unseen.{
  joined, conflict, Mark, Marks, Arrival, is_arrived, is_conflict, marked_as, insert_missing,
  not_news, mark_arrival, mark_arrivals, mark_conflicts, after_pass, cleared_by, opened, all_seen,
  root_or_empty,
}

-- Opening a note takes its mark away, unless it is a conflict's, and the mark of a folder joined
-- above it; every other path keeps the mark that it had.
pub lookup-opened :
    (marks : Marks) (path q : Str)
    → NodupKeys marks
    → lookup q (opened marks path) ≡ kept_if (λ e. not (cleared_by path e)) q (lookup q marks)
unfolding opened
lookup-opened marks path q n = lookup-filter (λ e. not (cleared_by path e)) q marks n

insert_missing-NodupKeys :
    (key : Str) (mark : Mark) (o : Option Mark) (marks : Marks)
    → NodupKeys marks
    → NodupKeys (insert_missing key mark o marks)
insert_missing-NodupKeys key mark none marks n = insert-NodupKeys key mark marks n
insert_missing-NodupKeys key mark (some m) marks n = n

mark_arrival-NodupKeys :
    (me : Str) (now : ℕ) (out : Marks) (a : Arrival)
    → NodupKeys out
    → NodupKeys (mark_arrival me now out a)
unfolding mark_arrival
mark_arrival-NodupKeys me now out a n = elim (Bool-cases (not_news me a)) [
  | inl t ↦ rw (t, mark_arrival) n
  | inr f ↦ elim (Bool-cases a.first_from_share) [
    | inl t ↦
        rw (mark_arrival, f, t)
          (insert_missing-NodupKeys (root_or_empty a.share_root)
            (record { kind = joined; at = now }) (lookup (root_or_empty a.share_root) out) out n)
    | inr g ↦
        rw (mark_arrival, f, g)
          (elim (Bool-cases (marked_as is_arrived (lookup a.path out))) [
            | inl t ↦ rw t n
            | inr h ↦ rw h (insert-NodupKeys a.path _ out n)
          ])
  ]
]

mark_arrivals-NodupKeys :
    (me : Str) (now : ℕ) (pulled : List Arrival) (out : Marks)
    → NodupKeys out
    → NodupKeys (mark_arrivals me now pulled out)
unfolding mark_arrivals
mark_arrivals-NodupKeys me now [] out n = n
mark_arrivals-NodupKeys me now (a ∷ pulled) out n =
    mark_arrivals-NodupKeys me now pulled (mark_arrival me now out a)
      (mark_arrival-NodupKeys me now out a n)

mark_conflicts-NodupKeys :
    (now : ℕ) (conflicts : List Str) (out : Marks)
    → NodupKeys out
    → NodupKeys (mark_conflicts now conflicts out)
unfolding mark_conflicts
mark_conflicts-NodupKeys now [] out n = n
mark_conflicts-NodupKeys now (path ∷ conflicts) out n =
    mark_conflicts-NodupKeys now conflicts (insert path _ out) (insert-NodupKeys path _ out n)

abbrev pub conflict_at : ℕ → Mark
conflict_at now = record { kind = conflict; at = now }

lookup-mark_conflicts :
    (now : ℕ) (conflicts : List Str) (out : Marks) (q : Str)
    → lookup q (mark_conflicts now conflicts out)
      ≡ (if contains q conflicts then some (conflict_at now) else lookup q out)
unfolding mark_conflicts contains
lookup-mark_conflicts now [] out q = refl
lookup-mark_conflicts now (path ∷ conflicts) out q = ground (
  arith,
  lookup-mark_conflicts now conflicts (insert path (conflict_at now) out) q,
  lookup-insert path q (conflict_at now) out,
)

after_pass-NodupKeys :
    (marks : Marks) (pulled : List Arrival) (conflicts : List Str) (me : Str) (now : ℕ)
    → NodupKeys marks
    → NodupKeys (after_pass marks pulled conflicts me now)
unfolding after_pass
after_pass-NodupKeys marks pulled conflicts me now n =
    mark_conflicts-NodupKeys now conflicts (mark_arrivals me now pulled marks)
      (mark_arrivals-NodupKeys me now pulled marks n)

-- A conflict that a pass left stays marked after any note, itself included, is opened and after all
-- marks are taken for seen.
pub conflict-stays :
    (marks : Marks) (pulled : List Arrival) (conflicts : List Str) (me : Str) (now : ℕ)
    (q path : Str)
    → NodupKeys marks
    → contains q conflicts ≡ true
    → lookup q (all_seen (opened (after_pass marks pulled conflicts me now) path))
      ≡ some (conflict_at now)
unfolding all_seen
conflict-stays marks pulled conflicts me now q path n c =
    let n' = after_pass-NodupKeys marks pulled conflicts me now n in
    let there : lookup q (after_pass marks pulled conflicts me now) ≡ some (conflict_at now) =
      unfold after_pass in
      (lookup-mark_conflicts now conflicts (mark_arrivals me now pulled marks) q ∙ rw c refl) in
    rw
      (
        lookup-filter (λ ((p, m) : Str × Mark). is_conflict m.kind) q
            (opened (after_pass marks pulled conflicts me now) path)
            (unfold opened in filter-NodupKeys (λ e. not (cleared_by path e)) _ n'),
        lookup-opened (after_pass marks pulled conflicts me now) path q n',
        there,
      )
      (let e : cleared_by path (q, conflict_at now) ≡ false = ground arith in rw e refl)

-- A later pass that pulls another account's change of a conflict copy in a shared folder replaces the
-- conflict's mark: opening the copy then leaves no mark on it, although the conflict is not resolved.
pub opened-after_pass :
    (marks : Marks) (a : Arrival) (me : Str) (now : ℕ) (m : Mark)
    → NodupKeys marks
    → lookup a.path marks ≡ some m
    → m.kind ≡ conflict
    → not_news me a ≡ false
    → a.first_from_share ≡ false
    → lookup a.path (opened (after_pass marks (a ∷ []) [] me now) a.path) ≡ none
unfolding after_pass mark_arrivals mark_conflicts mark_arrival
opened-after_pass marks a me now m n e c news later =
    rw
      (
        lookup-opened (after_pass marks (a ∷ []) [] me now) a.path a.path
            (after_pass-NodupKeys marks (a ∷ []) [] me now n),
        after_pass,
        mark_arrivals,
        mark_conflicts,
        mark_arrival,
        news,
        later,
        e,
        c,
      )
      (rw lookup-insert_self (elim (Bool-cases a.is_new) [
        | inl t ↦ rw (t, (str_beq_iff a.path a.path).1 refl) refl
        | inr f ↦ rw (f, (str_beq_iff a.path a.path).1 refl) refl
      ]))

quiet_arrivals :
    (me : Str) (now : ℕ) (marks : Marks) (pulled : List Arrival)
    → all (not_news me) pulled ≡ true
    → mark_arrivals me now pulled marks ≡ marks
unfolding mark_arrivals mark_arrival
quiet_arrivals me now marks [] h = refl
quiet_arrivals me now marks (a ∷ pulled) h =
    let quiet : not_news me a ≡ true = ground arith in
    let rest : all (not_news me) pulled ≡ true = ground arith in
    rw (mark_arrivals, mark_arrival, quiet) (quiet_arrivals me now marks pulled rest)

-- A pass names nothing of what this account wrote itself, and nothing outside the shared folders: where
-- all arrivals are of that kind, the only marks that it sets are those of the conflicts.
pub after_pass-quiet :
    (marks : Marks) (pulled : List Arrival) (conflicts : List Str) (me : Str) (now : ℕ) (q : Str)
    → all (not_news me) pulled ≡ true
    → lookup q (after_pass marks pulled conflicts me now)
      ≡ (if contains q conflicts then some (conflict_at now) else lookup q marks)
unfolding after_pass
after_pass-quiet marks pulled conflicts me now q quiet =
    rw (quiet_arrivals me now marks pulled quiet) (lookup-mark_conflicts now conflicts marks q)
