-- ===== src/Server/Store.antt =====
-- server/db/schema.sql: the rows of the tables that the modelled statements read and write, with
-- the columns they name. Ids, hashes and keys are texts, times are microseconds, and a NULL is
-- `none`. The keys that schema.sql declares (`versions` by vault, node and revision, `nodes` by
-- vault and id) are not enforced by the types.
pub mod Rows
use obsidian_syncserver.Prelude.{
  ℕ, Bool, true, false, not, ◌&&◌, Option, none, some, List, [], ◌∷◌, Str, ◌==◌, filter, length,
  any, str_eq, if◌then◌else◌,
}

pub record User : Type 0 where
  pub id : Str
  pub quota_bytes : ℕ
  pub frozen_at : Option ℕ
  pub history_days : ℕ

pub record Vault : Type 0 where
  pub id : Str
  pub user_id : Str
  pub root_node_id : Str
  pub head_rev : ℕ
  pub vault_key_id : Str
  pub reset_epoch : ℕ

pub data NodeType : Type 0 where
  file : NodeType
  folder : NodeType

-- A name as the client sealed it: `name_enc`, `name_hmac` and `name_key_id`.
pub record SealedName : Type 0 where
  pub enc : Str
  pub hmac : Str
  pub key_id : Str

pub record Node : Type 0 where
  pub vault_id : Str
  pub id : Str
  pub parent_id : Option Str
  pub name : Option SealedName
  pub type : NodeType
  pub sha256 : Option Str
  pub size : Option ℕ
  pub mtime : Str
  pub rev : ℕ
  pub deleted_at : Option ℕ
  pub ancestry : List Str
  pub share_id : Option Str
  pub share_item_id : Option Str

pub record Version : Type 0 where
  pub vault_id : Str
  pub node_id : Str
  pub rev : ℕ
  pub sha256 : Str
  pub size : ℕ
  pub author_id : Str
  pub at : ℕ

-- A row of `user_blobs`.
pub record Claim : Type 0 where
  pub user_id : Str
  pub sha256 : Str
  pub refs_own : ℕ
  pub refs_pending : ℕ
  pub pending_since : Option ℕ
  pub pending_device_id : Option Str

pub record Blob : Type 0 where
  pub sha256 : Str
  pub size : ℕ
  pub storage_key : Str
  pub gc_marked_at : Option ℕ

pub data JournalOp : Type 0 where
  put : JournalOp
  del : JournalOp
  move : JournalOp

pub record JournalRow : Type 0 where
  pub vault_id : Str
  pub rev : ℕ
  pub node_id : Str
  pub prev_parent_id : Option Str
  pub op : JournalOp
  pub node_rev : ℕ
  pub at : ℕ

-- A row of `sync_problems`.
pub record Problem : Type 0 where
  pub last_at : ℕ

pub record Share : Type 0 where
  pub id : Str
  pub initiator_vault_id : Str
  pub subtree_node_id : Str
  pub subtree_key_id : Option Str

-- A row of `share_members`.
pub record Member : Type 0 where
  pub share_id : Str
  pub user_id : Str
  pub vault_id : Option Str
  pub joined_at : Option ℕ
  pub finalization_started_at : Option ℕ
  pub left_at : Option ℕ

-- A row of `blob_keys`.
pub record BlobKey : Type 0 where
  pub sha256 : Str
  pub scope_id : Str
  pub wrapped_key : Str

-- A row of `dedup_index`.
pub record DedupTag : Type 0 where
  pub scope_id : Str
  pub content_tag : Str
  pub sha256 : Str

-- The one row of `server_meta` has `restore_epoch`.
pub record Tables : Type 0 where
  pub restore_epoch : ℕ
  pub users : List User
  pub vaults : List Vault
  pub nodes : List Node
  pub versions : List Version
  pub user_blobs : List Claim
  pub blobs : List Blob
  pub journal : List JournalRow
  pub problems : List Problem
  pub shares : List Share
  pub share_members : List Member
  pub blob_keys : List BlobKey
  pub dedup_index : List DedupTag

-- `x IS NULL`
abbrev pub is_null {ℓ} : {A : Type ℓ} → Option A → Bool
is_null none = true
is_null (some a) = false

-- `x = a` where a NULL equals nothing.
abbrev pub equals : Option Str → Str → Bool
equals none a = false
equals (some x) a = x == a

-- The one row that a primary key names.
abbrev pub one_where {ℓ} : {A : Type ℓ} → (A → Bool) → List A → Option A
one_where p [] = none
one_where p (x ∷ xs) = let rest = one_where p xs in if p x then some x else rest

-- `DELETE ... WHERE p`: what is left, and how many rows went.
abbrev pub delete_where {ℓ} : {A : Type ℓ} → (A → Bool) → List A → List A × ℕ
delete_where p rows = (filter (λ r. not (p r)) rows, length (filter p rows))

-- `UPDATE ... SET f WHERE p`
abbrev pub update_where {ℓ} : {A : Type ℓ} → (A → Bool) → (A → A) → List A → List A
update_where p f [] = []
update_where p f (x ∷ xs) = let rest = update_where p f xs in if p x then f x ∷ rest else x ∷ rest

abbrev pub day_span : ℕ
day_span = 86400000000

-- A vault of the user: `JOIN vaults va ON va.id = x.vault_id WHERE va.user_id = u`.
abbrev pub in_vault_of : Tables → Str → Str → Bool
in_vault_of t user vault = any (λ (va : Vault). va.id == vault && va.user_id == user) t.vaults
