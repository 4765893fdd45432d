-- ===== src/Server/Propagate/Delivery.antt =====
-- A content written inside a share reaches every copy (server/src/shares/propagate.ts).
use mathlib.Core.Option
use obsidian_syncserver.Prelude.{
  ℕ, ◌≡◌, refl, sym, ap, ◌∙◌, subst, inl, inr, Bool, ◌&&◌, Option, none, some, List, [], ◌∷◌, All,
  Elem, Str, ◌==◌, str_eq, nat_eq, str_beq_iff, arith,
}
use obsidian_syncserver.Server.Store.{Node, put, is_null, equals, one_where, update_where}
use obsidian_syncserver.Server.Holdings.{claim_blob}
use obsidian_syncserver.Server.Holdings.Claims.{update_where-Elem}
use obsidian_syncserver.Server.Tx.{modify, ◌>>◌}
use obsidian_syncserver.Server.Tx.Rules.{
  Ends, Keeps, Ends-bind, Ends-both, Ends-weaken, Keeps-pure, Keeps-gets, Keeps-read,
}
use obsidian_syncserver.Server.Replica.{
  journal, add_version, is_node, update_node, Counterpart, counterpart, counterpart_of,
}
use obsidian_syncserver.Server.Propagate.OnNodes.{
  OnNodes-take_rev, OnNodes-journal, OnNodes-add_version, OnNodes-claim_blob, OnNodes-freeze_over,
}
use obsidian_syncserver.Server.Propagate.{
  Target, PutItem, with_content, version_row, freeze_over, put_into, put_if_held, propagate_put,
}

-- The rows of this vault and id hold these bytes.
abbrev pub HasContent : Str → Str → Str → List Node → Type 0
HasContent sha256 vault id nodes =
    (n : Node) → Elem n nodes → n.vault_id ≡ vault → n.id ≡ id → n.sha256 ≡ some sha256

abbrev pub counterpart_in : Str → Str → List Node → Option Counterpart
counterpart_in vault item nodes = Option.map counterpart (
    one_where
      (λ (n : Node). n.vault_id == vault && equals n.share_item_id item && is_null n.deleted_at)
      nodes)

-- The live copy of the item, where a target has one, holds these bytes.
abbrev pub Delivered : Str → Str → Target → List Node → Type 0
Delivered sha256 item target nodes =
    (c : Counterpart)
    → counterpart_in target.vault_id item nodes ≡ some c
    → HasContent sha256 target.vault_id c.id nodes

-- A new content moves no node and takes none away.
counterpart_in-update :
    (vault item : Str) (p : Node → Bool) (content : PutItem) (rev : ℕ) (nodes : List Node)
    → counterpart_in vault item (update_where p (with_content content rev) nodes)
      ≡ counterpart_in vault item nodes
counterpart_in-update vault item p content rev [] = refl
counterpart_in-update vault item p content rev (n ∷ nodes) =
    ground (arith, counterpart_in-update vault item p content rev nodes)

HasContent-update :
    (content : PutItem) (rev : ℕ) (p : Node → Bool) (vault id : Str) (nodes : List Node)
    → HasContent content.sha256 vault id nodes
    → HasContent content.sha256 vault id (update_where p (with_content content rev) nodes)
HasContent-update content rev p vault id nodes held n m e1 e2 =
    elim (update_where-Elem p (with_content content rev) n nodes m) [
      | inl (old, i, hit, e) ↦ ap (λ (r : Node). r.sha256) e
      | inr (i, miss) ↦ held n i e1 e2
    ]

HasContent-updated :
    (content : PutItem) (rev : ℕ) (vault id : Str) (nodes : List Node)
    → HasContent content.sha256 vault id
        (update_where (is_node vault id) (with_content content rev) nodes)
HasContent-updated content rev vault id nodes n m e1 e2 =
    elim (update_where-Elem (is_node vault id) (with_content content rev) n nodes m) [
      | inl (old, i, hit, e) ↦ ap (λ (r : Node). r.sha256) e
      | inr (i, miss) ↦
          absurd (ground (arith, (str_beq_iff n.vault_id vault).1 e1, (str_beq_iff n.id id).1 e2))
    ]

module _ (now : ℕ) (content : PutItem) (item : Str) where
  abbrev Done : Target → List Node → Type 0
  Done = Delivered content.sha256 item

  -- An update with the content keeps what was delivered.
  Done-update :
      (target : Target) (vault id : Str) (rev : ℕ)
      → Keeps (λ t. Done target t.nodes) (modify (update_node vault id (with_content content rev)))
  unfolding update_node
  Done-update target vault id rev = record {
    end = λ t held c e.
        HasContent-update content rev (is_node vault id) target.vault_id c.id t.nodes (
          held c (
            sym (counterpart_in-update target.vault_id item (is_node vault id) content rev t.nodes)
            ∙ e));
  }

  -- The update of the copy itself delivers.
  Done-updated :
      (target : Target) (node : Counterpart) (rev : ℕ)
      → Ends
          (λ t. counterpart_in target.vault_id item t.nodes ≡ some node)
          (modify (update_node target.vault_id node.id (with_content content rev)))
          (λ u t. Done target t.nodes)
  unfolding update_node
  Done-updated target node rev = record {
    end = λ t found c e.
        let is_copy = is_node target.vault_id node.id in
        let same : some node ≡ some c =
          sym found
          ∙ sym (counterpart_in-update target.vault_id item is_copy content rev t.nodes)
          ∙ e in
        let same' : node ≡ c = cc in
        subst
          (λ (d : Counterpart).
            HasContent content.sha256 target.vault_id d.id
              (update_where is_copy (with_content content rev) t.nodes))
          same' (HasContent-updated content rev target.vault_id node.id t.nodes);
  }

  -- What follows the update of a copy leaves the nodes.
  put_rest :
      (Q : List Node → Type 0) (target : Target) (node : Counterpart) (rev : ℕ)
      → Keeps
          (λ t. Q t.nodes)
          (journal now target.vault_id rev node.id put none
            >> (add_version (
                  version_row now target.vault_id node.id rev content.sha256 content.size
                    content.author_id)
                >> (modify (claim_blob target.user_id content.sha256)
                    >> modify (freeze_over now target.user_id))))
  put_rest Q target node rev =
      Ends-bind (OnNodes-journal Q now target.vault_id rev node.id put none) (λ u.
        Ends-bind (OnNodes-add_version Q _) (λ u.
          Ends-bind (OnNodes-claim_blob Q target.user_id content.sha256)
            (λ u. OnNodes-freeze_over Q now target.user_id)))

  Done-put_into :
      (other target : Target) (node : Counterpart)
      → Keeps (λ t. Done other t.nodes) (put_into now content target node)
  unfolding put_into
  Done-put_into other target node =
      Ends-bind (OnNodes-take_rev (Done other) target.vault_id) (λ rev.
        Ends-bind (Done-update other target.vault_id node.id rev)
          (λ u. put_rest (Done other) target node rev))

  put_into-delivers :
      (target : Target) (node : Counterpart)
      → Ends
          (λ t. counterpart_in target.vault_id item t.nodes ≡ some node)
          (put_into now content target node)
          (λ u t. Done target t.nodes)
  unfolding put_into
  put_into-delivers target node =
      Ends-bind
        (OnNodes-take_rev (λ nodes. counterpart_in target.vault_id item nodes ≡ some node)
          target.vault_id)
        (λ rev.
          Ends-bind (Done-updated target node rev) (λ u. put_rest (Done target) target node rev))

  put_if_held-Done :
      (other target : Target) (held : Option Counterpart)
      → Keeps (λ t. Done other t.nodes) (put_if_held now content target held)
  put_if_held-Done other target none = Keeps-pure tt
  put_if_held-Done other target (some node) = Done-put_into other target node

  put_if_held-delivers :
      (target : Target) (held : Option Counterpart)
      → Ends
          (λ t. counterpart_in target.vault_id item t.nodes ≡ held)
          (put_if_held now content target held)
          (λ u t. Done target t.nodes)
  put_if_held-delivers target none = record { end = λ t e c found. absurd (cc) }
  put_if_held-delivers target (some node) = put_into-delivers target node

  propagate_put-Done :
      (other : Target) (targets : List Target)
      → Keeps (λ t. Done other t.nodes) (propagate_put now content item targets)
  unfolding propagate_put
  propagate_put-Done other [] = Keeps-pure tt
  propagate_put-Done other (target ∷ targets) =
      Keeps-read (counterpart_of target.vault_id item) (λ held.
        Ends-bind (put_if_held-Done other target held) (λ u. propagate_put-Done other targets))

  -- Where the propagation of a content ends, every target that has a live copy of the item holds the
  -- content in it.
  pub propagate_put-delivers :
      (targets : List Target)
      → Ends
          (λ t. Unit)
          (propagate_put now content item targets)
          (λ u t. All (λ (target : Target). Done target t.nodes) targets)
  unfolding propagate_put counterpart_of
  propagate_put-delivers [] = record { end = λ t p. tt }
  propagate_put-delivers (target ∷ targets) =
      Ends-bind (Keeps-gets {f = counterpart_of target.vault_id item}) (λ held.
        Ends-bind (Ends-weaken (λ t p. sym p.0) (put_if_held-delivers target held)) (λ u.
          Ends-both (propagate_put-Done target targets)
            (Ends-weaken (λ t p. tt) (propagate_put-delivers targets))))
