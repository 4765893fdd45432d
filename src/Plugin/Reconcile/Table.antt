-- ===== src/Plugin/Reconcile/Table.antt =====
-- The decision table that reconcile.ts describes in words, as a relation, and that `decide` is
-- exactly this table.
use obsidian_syncserver.Prelude.{
  true, false, ◌≡◌, ◌≢◌, refl, sym, ◌⊎◌, inl, inr, Option, none, some, Str, lookup, str_beq,
  option_beq, ◌↔◌, str_beq_iff, option_beq_iff, subst, subst⁻¹, str_beq-cases, option_beq-cases,
  Bool-cases, Option-cases, arith, ◌∙◌,
}
use obsidian_syncserver.Plugin.Rename.{Vanished}
use obsidian_syncserver.Plugin.Wire.{ServerNode, KnownNode}
use obsidian_syncserver.Plugin.Reconcile.{
  Situation, LocalMeta, Decision, nothing, refresh_hint, pull, push_edit, adopt, conflict,
  remote_rename, remove_local, push_move, push_new, source_in, decide, decide_at, decide_other,
  decide_same, decide_gone, decide_new, hint_stale,
}

-- The hint that lets a pass skip the read still describes the file, or no longer does.
abbrev pub HintFits : LocalMeta → KnownNode → Type 0
HintFits meta known = (known.mtime ≡ some meta.mtime) × (known.size ≡ some meta.size)

abbrev pub HintStale : LocalMeta → KnownNode → Type 0
HintStale meta known = (known.mtime ≢ some meta.mtime) ⊎ (known.size ≢ some meta.size)

-- The server holds another node at this path than the one this device knows, if it knows one.
abbrev pub Replaced : Option KnownNode → ServerNode → Type 0
Replaced none n = Unit
Replaced (some k) n = k.node_id ≢ n.node_id

pub data Decides (s : Situation) : Decision → Type 0 where
  unchanged :
      (k : KnownNode) (n : ServerNode)
      → s.known ≡ some k
      → s.on_server ≡ some n
      → k.node_id ≡ n.node_id
      → k.plain_hash ≡ s.meta.plain_hash
      → n.address ≡ some k.address
      → HintFits s.meta k
      → Decides s nothing
  touched :
      (k : KnownNode) (n : ServerNode)
      → s.known ≡ some k
      → s.on_server ≡ some n
      → k.node_id ≡ n.node_id
      → k.plain_hash ≡ s.meta.plain_hash
      → n.address ≡ some k.address
      → HintStale s.meta k
      → Decides s refresh_hint
  newer_there :
      (k : KnownNode) (n : ServerNode)
      → s.known ≡ some k
      → s.on_server ≡ some n
      → k.node_id ≡ n.node_id
      → k.plain_hash ≡ s.meta.plain_hash
      → n.address ≢ some k.address
      → s.policy.prefer_local ≡ false
      → Decides s (pull n)
  restored :
      (k : KnownNode) (n : ServerNode)
      → s.known ≡ some k
      → s.on_server ≡ some n
      → k.node_id ≡ n.node_id
      → k.plain_hash ≡ s.meta.plain_hash
      → n.address ≢ some k.address
      → s.policy.prefer_local ≡ true
      → Decides s (push_edit k n)
  edited :
      (k : KnownNode) (n : ServerNode)
      → s.known ≡ some k
      → s.on_server ≡ some n
      → k.node_id ≡ n.node_id
      → k.plain_hash ≢ s.meta.plain_hash
      → Decides s (push_edit k n)
  same_bytes :
      (n : ServerNode) (a : Str)
      → s.on_server ≡ some n
      → Replaced s.known n
      → lookup s.meta.tag s.dedup ≡ some a
      → n.address ≡ some a
      → Decides s (adopt n)
  other_bytes :
      (n : ServerNode)
      → s.on_server ≡ some n
      → Replaced s.known n
      → (lookup s.meta.tag s.dedup ≡ none) ⊎ (lookup s.meta.tag s.dedup ≢ n.address)
      → Decides s (conflict n)
  moved :
      (k : KnownNode) (n : ServerNode)
      → s.known ≡ some k
      → s.on_server ≡ none
      → lookup k.node_id s.by_node_id ≡ some n
      → Decides s (remote_rename k n)
  deleted_there :
      (k : KnownNode)
      → s.known ≡ some k
      → s.on_server ≡ none
      → lookup k.node_id s.by_node_id ≡ none
      → s.policy.apply_remote_deletes ≡ true
      → k.plain_hash ≡ s.meta.plain_hash
      → Decides s remove_local
  kept :
      (k : KnownNode)
      → s.known ≡ some k
      → s.on_server ≡ none
      → lookup k.node_id s.by_node_id ≡ none
      → (s.policy.apply_remote_deletes ≡ false) ⊎ (k.plain_hash ≢ s.meta.plain_hash)
      → Decides s push_new
  renamed_here :
      (v : Vanished)
      → s.known ≡ none
      → s.on_server ≡ none
      → source_in s ≡ some v
      → Decides s (push_move v)
  created : s.known ≡ none → s.on_server ≡ none → source_in s ≡ none → Decides s push_new

-- The comparisons that the code makes at a node that this device knows.
module _ (s : Situation) (k : KnownNode) (n : ServerNode) where
  same_node_iff : (str_beq k.node_id n.node_id ≡ true) ↔ (k.node_id ≡ n.node_id)
  same_node_iff = str_beq_iff k.node_id n.node_id

  same_hash_iff :
      (str_beq k.plain_hash s.meta.plain_hash ≡ true) ↔ (k.plain_hash ≡ s.meta.plain_hash)
  same_hash_iff = str_beq_iff k.plain_hash s.meta.plain_hash

  same_address_iff : (option_beq (some k.address) n.address ≡ true) ↔ (some k.address ≡ n.address)
  same_address_iff = option_beq_iff (some k.address) n.address

other :
    (s : Situation) (k : Option KnownNode)
    → s.known ≡ k
    → (n : ServerNode) → s.on_server ≡ some n
    → Replaced k n
    → decide_at s s.known s.on_server ≡ decide_other s n
unfolding decide_at
other s none hk n hn re = ground arith
other s (some k) hk n hn re = ground (arith, str_beq_iff k.node_id n.node_id)

other_of :
    (s : Situation) (n : ServerNode)
    → s.on_server ≡ some n
    → Replaced s.known n
    → decide s ≡ decide_other s n
unfolding decide
other_of s n hn re = other s s.known refl n hn re

decide_other_ne :
    (s : Situation) (n : ServerNode)
    → (lookup s.meta.tag s.dedup ≡ none) ⊎ (lookup s.meta.tag s.dedup ≢ n.address)
    → decide_other s n ≡ conflict n
unfolding decide_other
decide_other_ne s n (inl e) = ground arith
decide_other_ne s n (inr e) = elim (Option-cases (lookup s.meta.tag s.dedup)) [
  | inl h ↦ ground arith
  | inr (a, h) ↦ ground (arith, option_beq_iff (some a) n.address)
]

new_of : (s : Situation) → s.known ≡ none → s.on_server ≡ none → decide s ≡ decide_new s
unfolding decide
new_of s hk hn = rw (hk, hn, decide_at)

hint_stale-HintStale :
    (meta : LocalMeta) (k : KnownNode) → hint_stale meta k ≡ true → HintStale meta k
hint_stale-HintStale meta k h = ground arith

hint_stale-HintFits :
    (meta : LocalMeta) (k : KnownNode) → hint_stale meta k ≡ false → HintFits meta k
hint_stale-HintFits meta k h = ground arith

decide_of_Decides : (s : Situation) {d : Decision} → Decides s d → decide s ≡ d
unfolding decide
decide_of_Decides s (unchanged k n hk hn id same addr fits) =
    ground (arith, same_node_iff s k n, same_hash_iff s k n, same_address_iff s k n)
decide_of_Decides s (touched k n hk hn id same addr stale) =
    ground (arith, same_node_iff s k n, same_hash_iff s k n, same_address_iff s k n)
decide_of_Decides s (newer_there k n hk hn id same addr p) =
    ground (arith, same_node_iff s k n, same_hash_iff s k n, same_address_iff s k n)
decide_of_Decides s (restored k n hk hn id same addr p) =
    ground (arith, same_node_iff s k n, same_hash_iff s k n, same_address_iff s k n)
decide_of_Decides s (edited k n hk hn id edit) =
    ground (arith, same_node_iff s k n, same_hash_iff s k n)
decide_of_Decides s (same_bytes n a hn re d addr) =
    other_of s n hn re ∙ ground (arith, option_beq_iff (some a) n.address)
decide_of_Decides s (other_bytes n hn re d) = other_of s n hn re ∙ decide_other_ne s n d
decide_of_Decides s (moved k n hk hn found) = ground arith
decide_of_Decides s (deleted_there k hk hn gone p same) =
    ground (arith, str_beq_iff k.plain_hash s.meta.plain_hash)
decide_of_Decides s (kept k hk hn gone p) =
    ground (arith, str_beq_iff k.plain_hash s.meta.plain_hash)
decide_of_Decides s (renamed_here v hk hn src) = new_of s hk hn ∙ rw (src, decide_new)
decide_of_Decides s (created hk hn src) = new_of s hk hn ∙ rw (src, decide_new)

Decides_same :
    (s : Situation) (k : KnownNode) (n : ServerNode)
    → s.known ≡ some k
    → s.on_server ≡ some n
    → k.node_id ≡ n.node_id
    → Decides s (decide_same s.meta s.policy k n)
unfolding decide_same
Decides_same s k n hk hn id = elim (str_beq-cases k.plain_hash s.meta.plain_hash) [
  | inr (f, h) ↦ rw f (edited k n hk hn id h)
  | inl (t, h) ↦ elim (option_beq-cases (some k.address) n.address) [
    | inr (f, a) ↦ elim (Bool-cases s.policy.prefer_local) [
      | inl p ↦ simp (t, f, p) (restored k n hk hn id h (λ e. a (sym e)) p)
      | inr p ↦ simp (t, f, p) (newer_there k n hk hn id h (λ e. a (sym e)) p)
    ]
    | inl (g, a) ↦ elim (Bool-cases (hint_stale s.meta k)) [
      | inl st ↦ rw (t, g, st) (touched k n hk hn id h (sym a) (hint_stale-HintStale s.meta k st))
      | inr fr ↦ rw (t, g, fr) (unchanged k n hk hn id h (sym a) (hint_stale-HintFits s.meta k fr))
    ]
  ]
]

Decides_other :
    (s : Situation) (n : ServerNode)
    → s.on_server ≡ some n
    → Replaced s.known n
    → Decides s (decide_other s n)
unfolding decide_other
Decides_other s n hn re = elim (Option-cases (lookup s.meta.tag s.dedup)) [
  | inl h ↦ rw h (other_bytes n hn re (inl h))
  | inr (a, h) ↦ elim (option_beq-cases (some a) n.address) [
    | inl (t, e) ↦ rw (h, t) (same_bytes n a hn re h (sym e))
    | inr (f, e) ↦ rw (h, f) (other_bytes n hn re (inr (λ p. e (sym h ∙ p))))
  ]
]

Decides_gone :
    (s : Situation) (k : KnownNode)
    → s.known ≡ some k
    → s.on_server ≡ none
    → Decides s (decide_gone s k)
unfolding decide_gone
Decides_gone s k hk hn = elim (Option-cases (lookup k.node_id s.by_node_id)) [
  | inr (n, h) ↦ rw (h, decide_gone) (moved k n hk hn h)
  | inl h ↦ elim (Bool-cases s.policy.apply_remote_deletes) [
    | inr p ↦ rw (h, decide_gone) (simp p (kept k hk hn h (inl p)))
    | inl p ↦ elim (str_beq-cases k.plain_hash s.meta.plain_hash) [
      | inl (t, e) ↦ rw (h, decide_gone) (simp (p, t) (deleted_there k hk hn h p e))
      | inr (f, e) ↦ rw (h, decide_gone) (simp (p, f) (kept k hk hn h (inr e)))
    ]
  ]
]

Decides_new : (s : Situation) → s.known ≡ none → s.on_server ≡ none → Decides s (decide_new s)
unfolding decide_new
Decides_new s hk hn = elim (Option-cases (source_in s)) [
  | inl h ↦ rw (h, decide_new) (created hk hn h)
  | inr (v, h) ↦ rw (h, decide_new) (renamed_here v hk hn h)
]

Decides_at :
    (s : Situation) (k : Option KnownNode) (n : Option ServerNode)
    → s.known ≡ k
    → s.on_server ≡ n
    → Decides s (decide_at s k n)
unfolding decide_at
Decides_at s (some k) (some n) hk hn = elim (str_beq-cases k.node_id n.node_id) [
  | inl (t, e) ↦ rw t (Decides_same s k n hk hn e)
  | inr (f, e) ↦ rw f (Decides_other s n hn (subst⁻¹ (λ o. Replaced o n) hk e))
]
Decides_at s none (some n) hk hn = Decides_other s n hn (subst⁻¹ (λ o. Replaced o n) hk tt)
Decides_at s (some k) none hk hn = Decides_gone s k hk hn
Decides_at s none none hk hn = Decides_new s hk hn

-- `decide` gives a decision exactly where the table does: every row of the table is what the code
-- answers, and the code answers nothing that is not a row.
pub Decides_iff : (s : Situation) (d : Decision) → Decides s d ↔ (decide s ≡ d)
unfolding decide
Decides_iff s d =
    (decide_of_Decides s, λ e. subst (Decides s) e (Decides_at s s.known s.on_server refl refl))
