-- ===== src/Server/WriteTests.antt =====
-- A write into a shared folder of two accounts, and the theorems on it.
use obsidian_syncserver.Prelude.{
  ℕ, ◌≡◌, ◌≢◌, Option, refl, sym, ap, ◌∙◌, ◌⊎◌, inl, inr, none, some, [], ◌∷◌, Elem, Str, codes,
  str_beq, str_eq, sort_by, place, text_leb, arith, ne_of_beq,
}
use obsidian_syncserver.Server.Store.{User, Vault, Node, file, Member, Tables}
use obsidian_syncserver.Server.Material.{write_material, write_envelopes, write_tags}
use obsidian_syncserver.Server.Holdings.{
  next_rev, journal_entry, record_version, bind_blob, claim_blob, insert_or_update,
}
use obsidian_syncserver.Server.Quota.{owner_and_frozen, freeze_if_over_quota, usage_of}
use obsidian_syncserver.Server.Refusal.{DbError}
use obsidian_syncserver.Server.Tx.{Answer, Outcome, done, refused, threw, value, tx_guarded}
use obsidian_syncserver.Server.Tx.Rules.{tx_guarded-atomic}
use obsidian_syncserver.Server.Replica.{update_node, counterpart_of}
use obsidian_syncserver.Server.Replica.Heads.{Within}
use obsidian_syncserver.Server.Propagate.{fanout_targets, propagate_put, put_into}
use obsidian_syncserver.Server.Propagate.Delivery.{Delivered}
use obsidian_syncserver.Server.Propagate.FanOut.{fan_out}
use obsidian_syncserver.Server.Nodes.{
  CreateInput, PutInput, MoveInput, put_content, create_node, delete_node, move_node,
}
use obsidian_syncserver.Server.History.{restore_node}
use obsidian_syncserver.Server.History.Heads.{writes-Within}
use obsidian_syncserver.Server.Nodes.Shared.{put_content-delivers}

abbrev account : Str → User
account id = record { id = id; quota_bytes = 100; frozen_at = none; history_days = 180 }

abbrev vault_of_user : Str → Str → Vault
vault_of_user id user = record {
  id = id;
  user_id = user;
  root_node_id = codes "r";
  head_rev = 5;
  vault_key_id = codes "k";
  reset_epoch = 1;
}

abbrev copy_in : Str → Str → Node
copy_in vault id = record {
  vault_id = vault;
  id = id;
  parent_id = none;
  name = none;
  type = file;
  sha256 = some (codes "b1");
  size = some 10;
  mtime = [];
  rev = 3;
  deleted_at = none;
  ancestry = [];
  share_id = some (codes "s");
  share_item_id = some (codes "i");
}

abbrev member : Str → Str → Member
member user vault = record {
  share_id = codes "s";
  user_id = user;
  vault_id = some vault;
  joined_at = some 1;
  finalization_started_at = none;
  left_at = none;
}

abbrev shared : Tables
shared = record {
  users = account (codes "u") ∷ (account (codes "w") ∷ []);
  vaults = vault_of_user (codes "v") (codes "u") ∷ (vault_of_user (codes "x") (codes "w") ∷ []);
  nodes = copy_in (codes "v") (codes "n") ∷ (copy_in (codes "x") (codes "m") ∷ []);
  versions = [];
  user_blobs = [];
  blobs = [];
  journal = [];
  problems = [];
  shares = [];
  share_members = member (codes "u") (codes "v") ∷ (member (codes "w") (codes "x") ∷ []);
  blob_keys = [];
  dedup_index = [];
  restore_epoch = 1;
}

abbrev content : PutInput
content = record {
  vault_id = codes "v";
  node_id = codes "n";
  sha256 = codes "b2";
  size = 20;
  mtime = [];
  base_sha256 = some (codes "b1");
  material = record { envelopes = []; dedup_tags = [] };
}

abbrev id_of : Tables → Str
id_of t = codes "new"

abbrev date_of : ℕ → Str
date_of at = codes "now"

abbrev after : Outcome ℕ → Tables
after (done rev t) = t
after (refused r t) = shared
after (threw e t) = shared

abbrev written : Tables
written = after (put_content id_of id_of 7 content shared)

put_run : put_content id_of id_of 7 content shared ≡ done 6 written
unfolding put_content owner_and_frozen str_beq write_material write_envelopes write_tags next_rev
    update_node journal_entry record_version bind_blob claim_blob insert_or_update fan_out
    fanout_targets sort_by place propagate_put counterpart_of put_into freeze_if_over_quota usage_of
    text_leb
put_run = refl

put_content-delivers_example :
    Delivered
      (codes "b2")
      (codes "i")
      (record { user_id = codes "w"; vault_id = codes "x" })
      written.nodes
put_content-delivers_example =
    put_content-delivers id_of id_of 7 content shared written 6 (copy_in (codes "v") (codes "n"))
      (codes "s") (codes "i") (member (codes "w") (codes "x")) (codes "x") (account (codes "w"))
      (unfold str_beq in refl) refl refl put_run (inr (inl refl)) refl (λ h. cc) refl refl refl
      (ne_of_beq (codes "x") (codes "v") (unfold str_beq in refl)) (unfold str_beq in refl) refl

abbrev passes : Tables → Option DbError
passes t = none

abbrev guarded_put : Answer ℕ × Tables
guarded_put = tx_guarded passes (put_content id_of id_of 7 content) shared

tx_guarded-atomic_example :
    ((rev : ℕ) (s : Tables)
      → put_content id_of id_of 7 content shared ≡ done rev s
      → passes s ≡ none
      → guarded_put ≡ (value rev, s))
    × (((rev : ℕ) × (guarded_put.0 ≡ value rev)
          × (put_content id_of id_of 7 content shared ≡ done rev guarded_put.1)
          × (passes guarded_put.1 ≡ none))
        ⊎ (((rev : ℕ) → guarded_put.0 ≢ value rev) × (guarded_put.1 ≡ shared)))
tx_guarded-atomic_example = tx_guarded-atomic passes (put_content id_of id_of 7 content) shared

one_of : (a b : Vault) → Elem a shared.vaults → Elem b shared.vaults → a.id ≡ b.id → a ≡ b
one_of a b (inl ea) (inl eb) e = ea ∙ sym eb
one_of a b (inl ea) (inr (inl eb)) e = absurd (
    ne_of_beq (codes "v") (codes "x") (unfold str_beq in refl)
      (sym (ap (λ (v : Vault). v.id) ea) ∙ e ∙ ap (λ (v : Vault). v.id) eb))
one_of a b (inr (inl ea)) (inl eb) e = absurd (
    ne_of_beq (codes "x") (codes "v") (unfold str_beq in refl)
      (sym (ap (λ (v : Vault). v.id) ea) ∙ e ∙ ap (λ (v : Vault). v.id) eb))
one_of a b (inr (inl ea)) (inr (inl eb)) e = ea ∙ sym eb
one_of a b (inl ea) (inr (inr none_left)) e = elim none_left [ ]
one_of a b (inr (inl ea)) (inr (inr none_left)) e = elim none_left [ ]
one_of a b (inr (inr none_left)) _ e = elim none_left [ ]

head_at : (va : Vault) → Elem va shared.vaults → va.head_rev ≡ 5
head_at va (inl e) = ap (λ (v : Vault). v.head_rev) e
head_at va (inr (inl e)) = ap (λ (v : Vault). v.head_rev) e
head_at va (inr (inr none_left)) = elim none_left [ ]

rev_at : (n : Node) → Elem n shared.nodes → n.rev ≡ 3
rev_at n (inl e) = ap (λ (n : Node). n.rev) e
rev_at n (inr (inl e)) = ap (λ (n : Node). n.rev) e
rev_at n (inr (inr none_left)) = elim none_left [ ]

shared-Within : Within shared
shared-Within = record {
  one_row = one_of;
  nodes_within = λ n va mn mv e. rw (rev_at n mn, head_at va mv) (omega arith);
  journal_within = λ j va mj mv e. absurd mj;
}

abbrev creation : CreateInput
creation = record {
  vault_id = codes "v";
  parent_id = codes "n";
  type = file;
  sha256 = some (codes "b3");
  size = some 5;
  mtime = [];
  name = record { enc = []; hmac = []; key_id = [] };
  material = record { envelopes = []; dedup_tags = [] };
}

abbrev relocation : MoveInput
relocation = record {
  vault_id = codes "v";
  node_id = codes "n";
  parent_id = codes "n";
  name = record { enc = []; hmac = []; key_id = [] };
  if_match_rev = 3;
}

writes-Within_example :
    Within (tx_guarded (λ t. none) (create_node id_of id_of 7 creation) shared).1
    × Within (tx_guarded (λ t. none) (put_content id_of id_of 7 content) shared).1
    × Within (tx_guarded (λ t. none) (delete_node id_of id_of 7 (codes "v") (codes "n") 3) shared).1
    × Within (tx_guarded (λ t. none) (move_node id_of id_of 7 relocation) shared).1
    × Within
        (tx_guarded (λ t. none) (restore_node id_of date_of 7 (codes "v") (codes "n") 3) shared).1
writes-Within_example =
    writes-Within id_of id_of date_of 7 (λ t. none) shared creation content relocation (codes "v")
      (codes "n") 3 shared-Within
