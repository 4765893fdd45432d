-- ===== src/Server/Nodes/Shared.antt =====
-- A content put into a shared folder (server/src/nodes/service.ts) is in every copy when the write
-- ends.
use obsidian_syncserver.Prelude.{
  ℕ, ◌≡◌, ◌≢◌, true, refl, Elem, Elem-map, Elem-sort_by, Elem-filter, All_at, filter, map, sort_by,
  arith, str_beq_iff, ap, ◌∙◌, subst, subst⁻¹, not, Option, none, some, List, All, Str, codes, ◌==◌,
  any, not_failed, str_eq, nat_eq, option_eq,
}
use obsidian_syncserver.Server.Store.{User, Member, Node, Version, JournalOp, put, Tables}
use obsidian_syncserver.Server.Store.Rows.{not_null_iff}
use obsidian_syncserver.Server.Refusal.{not_found, base_mismatch}
use obsidian_syncserver.Server.Holdings.{
  next_rev, advanced, with_head, journal_entry, record_version, bind_blob,
}
use obsidian_syncserver.Server.Material.{Material, write_material}
use obsidian_syncserver.Server.Quota.{owner_and_frozen, user_at}
use obsidian_syncserver.Server.Tx.{done, modify}
use obsidian_syncserver.Server.Tx.Rules.{
  After, Ends, Keeps, Ends-bind, Ends-weaken, Ends-attempt, Keeps-pure, Keeps-gets, Keeps-read,
  Keeps-guard, Ends-found, Ends-given,
}
use obsidian_syncserver.Server.Replica.{taken, rev_of, take_rev, journal, add_version, update_node}
use obsidian_syncserver.Server.Propagate.{
  Target, is_target, target_of, vault_or_empty, by_user, fanout_targets, with_content, version_row,
  propagate_put,
}
use obsidian_syncserver.Server.Propagate.Delivery.{Delivered, propagate_put-delivers}
use obsidian_syncserver.Server.Propagate.FanOut.{present, written, fan_out}
use obsidian_syncserver.Server.Nodes.{PutInput, live_node, is_file, put_item, event_at, put_content}
use obsidian_syncserver.Server.Nodes.Heads.{Keeps-writable}

module _ (share vault : Str) (targets : List Target) where
  -- The members whom a write of the vault reaches are these.
  abbrev Reaches : Tables → Type 0
  Reaches t = fanout_targets share vault t ≡ targets

  Reaches-take_rev : (v : Str) → Keeps Reaches (take_rev v)
  unfolding next_rev fanout_targets
  Reaches-take_rev v = record { end = λ t q. go t (advanced v t) _ q }
    where
      go :
          (t s : Tables) (o : Option ℕ)
          → Reaches s
          → After (λ rev t. Reaches t) (rev_of t (with_head s o))
      go t s none q = tt
      go t s (some rev) q = q

  Reaches-journal :
      (now : ℕ) (v : Str) (rev : ℕ) (node : Str) (op : JournalOp) (prev : Option Str)
      → Keeps Reaches (journal now v rev node op prev)
  unfolding journal_entry fanout_targets
  Reaches-journal now v rev node op prev =
      Ends-attempt (taken (codes "journal_pkey")) (journal_entry v rev node op prev now)
        (λ t s q e. subst⁻¹ Reaches (not_failed (any _ t.journal) _ s e) q)

  Reaches-add_version : (v : Version) → Keeps Reaches (add_version v)
  unfolding record_version fanout_targets
  Reaches-add_version v =
      Ends-attempt (taken (codes "versions_pkey")) (record_version v)
        (λ t s q e. subst⁻¹ Reaches (not_failed (any _ t.versions) _ s e) q)

  Reaches-bind_blob : (user sha256 : Str) → Keeps Reaches (modify (bind_blob user sha256))
  unfolding bind_blob fanout_targets
  Reaches-bind_blob user sha256 = record { end = λ t q. q }

  Reaches-write_material : (m : Material) → Keeps Reaches (modify (write_material m))
  unfolding write_material fanout_targets
  Reaches-write_material m = record { end = λ t q. q }

  Reaches-update_node : (v id : Str) (f : Node → Node) → Keeps Reaches (modify (update_node v id f))
  unfolding update_node fanout_targets
  Reaches-update_node v id f = record { end = λ t q. q }

  fan_out-delivers :
      (new_id : Tables → Str) (now : ℕ) (input : PutInput) (owner item : Str) (row : Node)
      → input.vault_id ≡ vault
      → present row.share_id ≡ some share
      → present row.share_item_id ≡ some item
      → Ends Reaches
          (fan_out new_id now (event_at input.vault_id row (written (put_item input owner))))
          (λ u t. All (λ (target : Target). Delivered input.sha256 item target t.nodes) targets)
  unfolding fan_out
  fan_out-delivers new_id now input owner item row ev es ei =
      rw (fan_out, es, ei, ev)
        (Ends-bind (Keeps-gets {f = fanout_targets share vault}) (λ found. record {
          end = λ t p.
              let same : found ≡ targets = p.0 ∙ p.1 in
              subst⁻¹
                (λ ts.
                  After
                    (λ u t.
                      All (λ (target : Target). Delivered input.sha256 item target t.nodes) targets)
                    (propagate_put now (put_item input owner) item ts t))
                same ((propagate_put-delivers now (put_item input owner) item targets).end t tt);
        }))

  -- From the row that the write has found to its end.
  put_row-delivers :
      (new_id random_uuid : Tables → Str) (now : ℕ) (input : PutInput) (item : Str) (row : Node)
      → input.vault_id ≡ vault
      → present row.share_id ≡ some share
      → present row.share_item_id ≡ some item
      → Ends
          (λ t. (live_node input.vault_id input.node_id t ≡ some row) × Reaches t)
          (put_content new_id random_uuid now input)
          (λ u t. All (λ (target : Target). Delivered input.sha256 item target t.nodes) targets)
  unfolding put_content
  put_row-delivers new_id random_uuid now input item row ev es ei =
      Keeps-read (λ t. owner_and_frozen t input.vault_id)
        (λ access. Ends-bind (Keeps-writable access) (λ owner.
          Ends-bind (Keeps-gets {f = live_node input.vault_id input.node_id}) (λ cur.
            Ends-bind (Ends-weaken (λ t p. (p.0 ∙ p.1.0, p.1.1)) (Ends-found cur row not_found))
              (λ into. Ends-given (λ same.
                Ends-bind (Keeps-guard (not (is_file into.type)) not_found) (λ u.
                  Ends-bind
                    (Keeps-guard (not (into.sha256 == input.base_sha256))
                      (base_mismatch into.sha256 into.rev))
                    (λ u. Ends-bind (Reaches-write_material input.material) (λ u.
                      Ends-bind (Reaches-take_rev input.vault_id) (λ rev.
                        Ends-bind
                          (Reaches-update_node input.vault_id input.node_id
                            (with_content (put_item input owner) rev))
                          (λ u.
                            Ends-bind
                              (Reaches-journal now input.vault_id rev input.node_id put none)
                              (λ u.
                                Ends-bind
                                  (Reaches-add_version (
                                    version_row now input.vault_id input.node_id rev input.sha256
                                      input.size owner))
                                  (λ u. Ends-bind (Reaches-bind_blob owner input.sha256) (λ u.
                                    Ends-bind
                                      (fan_out-delivers new_id now input owner item into ev
                                        (ap (λ (n : Node). present n.share_id) same ∙ es)
                                        (ap (λ (n : Node). present n.share_item_id) same ∙ ei))
                                      (λ u. Keeps-pure rev))))))))))))))

-- A live participant in another vault, whose account is not frozen, is a target.
targeted :
    (t : Tables) (share except : Str) (m : Member) (v : Str) (u : User)
    → Elem m t.share_members
    → m.share_id ≡ share
    → m.joined_at ≢ none
    → m.finalization_started_at ≡ none
    → m.left_at ≡ none
    → m.vault_id ≡ some v
    → v ≢ except
    → user_at t m.user_id ≡ some u
    → u.frozen_at ≡ none
    → Elem (record { user_id = m.user_id; vault_id = v }) (fanout_targets share except t)
unfolding fanout_targets
targeted t share except m v u mm of_share joined unfinished here at other of_user warm =
    let is : is_target t share except m ≡ true =
      rw (unfinished, here, at, of_user, warm)
        (ground (
          arith,
          str_beq_iff m.share_id share,
          of_share,
          str_beq_iff v except,
          other,
          (not_null_iff m.joined_at).1 joined,
        )) in
    let same : target_of m ≡ record { user_id = m.user_id; vault_id = v } =
      ap (λ o. record { user_id = m.user_id; vault_id = vault_or_empty o }) at in
    subst
      (λ target.
        Elem target
          (map target_of (sort_by by_user (filter (is_target t share except) t.share_members))))
      same
      (Elem-map target_of m _
        (Elem-sort_by by_user m _ (Elem-filter (is_target t share except) m t.share_members mm is)))

-- A content that was put into a shared folder is, when the write is done, in the copy of every other
-- live participant who has a live copy of the file: of every member of the share who had joined, was
-- not being finalised and had not left, whose vault was another and whose account was not frozen.
pub put_content-delivers :
    (new_id random_uuid : Tables → Str) (now : ℕ) (input : PutInput) (t s : Tables) (rev : ℕ)
    (row : Node) (share item : Str) (m : Member) (v : Str) (u : User)
    → live_node input.vault_id input.node_id t ≡ some row
    → present row.share_id ≡ some share
    → present row.share_item_id ≡ some item
    → put_content new_id random_uuid now input t ≡ done rev s
    → Elem m t.share_members
    → m.share_id ≡ share
    → m.joined_at ≢ none
    → m.finalization_started_at ≡ none
    → m.left_at ≡ none
    → m.vault_id ≡ some v
    → v ≢ input.vault_id
    → user_at t m.user_id ≡ some u
    → u.frozen_at ≡ none
    → Delivered input.sha256 item (record { user_id = m.user_id; vault_id = v }) s.nodes
put_content-delivers new_id random_uuid now input t s rev row share item m v u found es ei e mm
      of_share joined unfinished here at other of_user warm =
    let targets = fanout_targets share input.vault_id t in
    All_at (λ (target : Target). Delivered input.sha256 item target s.nodes) targets _
      (subst
        (After
          (λ r w. All (λ (target : Target). Delivered input.sha256 item target w.nodes) targets))
        e
        ((put_row-delivers share input.vault_id targets new_id random_uuid now input item row refl
            es ei).end
          t (found, refl)))
      (targeted t share input.vault_id m v u mm of_share joined unfinished here at other of_user
        warm)
