-- ===== src/Server/Retention/Marking.antt =====
-- The mark of server/src/retention.ts: a blob is in quarantine exactly while nothing refers to it.
use obsidian_syncserver.Prelude.{
  ℕ, ◌≡◌, ◌≢◌, refl, ◌↔◌, ◌⊎◌, inl, inr, Bool, true, false, ◌||◌, subst⁻¹, Option, none, some, List,
  [], ◌∷◌, map, Elem, Pairs, Str, any, any_found, any_of, str_eq, str_beq_iff, ◌==◌, arith,
  Bool-cases,
}
use obsidian_syncserver.Server.Store.{Node, Version, Claim, Blob, Tables, equals, update_where}
use obsidian_syncserver.Server.Retention.{
  referenced, mark, unmark, to_mark, to_unmark, mark_unreferenced,
}

-- Some row of the three tables names these bytes.
abbrev pub Named : Tables → Str → Type 0
Named t sha256 =
    ((u : Claim) × Elem u t.user_blobs × (u.sha256 ≡ sha256))
    ⊎ ((n : Node) × Elem n t.nodes × (n.sha256 ≡ some sha256))
    ⊎ ((v : Version) × Elem v t.versions × (v.sha256 ≡ sha256))

pub equals_iff : (o : Option Str) (a : Str) → (equals o a ≡ true) ↔ (o ≡ some a)
equals_iff none a = ground arith
equals_iff (some x) a = ground (arith, str_beq_iff x a)

or_iff : (a b c : Bool) → ((a || b || c) ≡ true) ↔ ((a ≡ true) ⊎ (b ≡ true) ⊎ (c ≡ true))
or_iff a b c = ground arith

-- A blob is referenced exactly when a claim, a node or a version names its bytes.
pub referenced_iff : (t : Tables) (b : Blob) → (referenced t b ≡ true) ↔ Named t b.sha256
referenced_iff t b = (
  λ h. elim ((or_iff claim node version).0 h) [
    | inl c ↦
        let (u, m, e) = any_found (λ (u : Claim). u.sha256 == b.sha256) t.user_blobs c in
        inl (u, m, (str_beq_iff u.sha256 b.sha256).0 e)
    | inr (inl c) ↦
        let (n, m, e) = any_found (λ (n : Node). equals n.sha256 b.sha256) t.nodes c in
        inr (inl (n, m, (equals_iff n.sha256 b.sha256).0 e))
    | inr (inr c) ↦
        let (v, m, e) = any_found (λ (v : Version). v.sha256 == b.sha256) t.versions c in
        inr (inr (v, m, (str_beq_iff v.sha256 b.sha256).0 e))
  ],
  λ named. (or_iff claim node version).1 (back named),
)
  where
    claim : Bool
    claim = any (λ (u : Claim). u.sha256 == b.sha256) t.user_blobs

    node : Bool
    node = any (λ (n : Node). equals n.sha256 b.sha256) t.nodes

    version : Bool
    version = any (λ (v : Version). v.sha256 == b.sha256) t.versions

    back : Named t b.sha256 → (claim ≡ true) ⊎ (node ≡ true) ⊎ (version ≡ true)
    back (inl (u, m, e)) = inl (
        any_of (λ (u : Claim). u.sha256 == b.sha256) t.user_blobs u m
          ((str_beq_iff u.sha256 b.sha256).1 e))
    back (inr (inl (n, m, e))) = inr (
        inl (
          any_of (λ (n : Node). equals n.sha256 b.sha256) t.nodes n m
            ((equals_iff n.sha256 b.sha256).1 e)))
    back (inr (inr (v, m, e))) = inr (
        inr (
          any_of (λ (v : Version). v.sha256 == b.sha256) t.versions v m
            ((str_beq_iff v.sha256 b.sha256).1 e)))

-- The date that a blob's mark should have after the pass.
abbrev pub mark_after : Bool → ℕ → Option ℕ → Option ℕ
mark_after true now m = none
mark_after false now none = some now
mark_after false now (some since) = some since

abbrev pub settle : Tables → ℕ → Blob → Blob
settle t now b = record b { gc_marked_at = mark_after (referenced t b) now b.gc_marked_at }

settle-all :
    (t : Tables) (now : ℕ) (bs : List Blob)
    → update_where (to_mark t) (mark now) (update_where (to_unmark t) unmark bs)
      ≡ map (settle t now) bs
settle-all t now [] = refl
settle-all t now (b ∷ bs) = go b.gc_marked_at (settle-all t now bs)
  where
    go :
        (m : Option ℕ)
        → update_where (to_mark t) (mark now) (update_where (to_unmark t) unmark bs)
          ≡ map (settle t now) bs
        → let b' : Blob = record b { gc_marked_at = m } in
          update_where (to_mark t) (mark now) (update_where (to_unmark t) unmark (b' ∷ bs))
          ≡ map (settle t now) (b' ∷ bs)
    go none rest = ground (arith, Bool-cases (referenced t b))
    go (some since) rest = ground (arith, Bool-cases (referenced t b))

pub mark_unreferenced-settle :
    (t : Tables) (now : ℕ) → ((mark_unreferenced now t).0).blobs ≡ map (settle t now) t.blobs
unfolding mark_unreferenced
mark_unreferenced-settle t now = settle-all t now t.blobs

-- What the row of a blob becomes: out of quarantine, into it, or as it was.
abbrev pub Settled : Tables → ℕ → Blob → Blob → Type 0
Settled t now b after =
    (Named t b.sha256 × (after ≡ record b { gc_marked_at = none }))
    ⊎ (¬ Named t b.sha256
        × (b.gc_marked_at ≡ none)
        × (after ≡ record b { gc_marked_at = some now }))
    ⊎ (¬ Named t b.sha256 × (b.gc_marked_at ≢ none) × (after ≡ b))

settle-Settled : (t : Tables) (now : ℕ) (b : Blob) → Settled t now b (settle t now b)
settle-Settled t now b = elim (Bool-cases (referenced t b)) [
  | inl h ↦ inl ((referenced_iff t b).0 h, rw h refl)
  | inr h ↦ unnamed b.gc_marked_at h
]
  where
    unnamed :
        (m : Option ℕ)
        → referenced t b ≡ false
        → let b' : Blob = record b { gc_marked_at = m } in Settled t now b' (settle t now b')
    unnamed none h = inr (inl (λ n. ground (arith, (referenced_iff t b).1 n), refl, rw h refl))
    unnamed (some since) h =
        inr (inr (λ n. ground (arith, (referenced_iff t b).1 n), cc, rw h refl))

settle-Pairs :
    (t : Tables) (now : ℕ) (bs : List Blob) → Pairs (Settled t now) bs (map (settle t now) bs)
settle-Pairs t now [] = tt
settle-Pairs t now (b ∷ bs) = (settle-Settled t now b, settle-Pairs t now bs)

-- Marking takes every row of `blobs` in turn: one whose bytes a claim, a node or a version names
-- leaves the quarantine, one that nothing names enters it at the present time or, where it is there
-- already, keeps its date, and nothing else of a row changes.
pub mark_unreferenced_lem :
    (t : Tables) (now : ℕ) → Pairs (Settled t now) t.blobs ((mark_unreferenced now t).0).blobs
mark_unreferenced_lem t now =
    subst⁻¹ (Pairs (Settled t now) t.blobs) (mark_unreferenced-settle t now)
      (settle-Pairs t now t.blobs)
