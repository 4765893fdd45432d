-- ===== src/Server/Material.antt =====
-- server/src/material.ts and `dedupLookup` of server/src/nodes/service.ts: the key material that a
-- client sends, and the tags that its account can read.
use obsidian_syncserver.Prelude.{
  Bool, not, ◌&&◌, ◌||◌, List, [], ◌∷◌, ◌++◌, Str, ◌==◌, any, filter, map, contains, str_eq,
  if◌then◌else◌,
}
use obsidian_syncserver.Server.Store.{
  Member, Share, Vault, BlobKey, DedupTag, Tables, is_null, equals, update_where,
}

pub record Material : Type 0 where
  pub envelopes : List BlobKey
  pub dedup_tags : List DedupTag

abbrev pub is_envelope : BlobKey → BlobKey → Bool
is_envelope e k = k.sha256 == e.sha256 && k.scope_id == e.scope_id

-- `ON CONFLICT ... DO NOTHING`
unfoldable pub write_envelopes : List BlobKey → List BlobKey → List BlobKey
write_envelopes [] keys = keys
write_envelopes (e ∷ envelopes) keys =
    write_envelopes envelopes (if any (is_envelope e) keys then keys else keys ++ (e ∷ []))

abbrev pub is_tag : DedupTag → DedupTag → Bool
is_tag t d = d.scope_id == t.scope_id && d.content_tag == t.content_tag

-- `ON CONFLICT ... DO UPDATE SET sha256`
unfoldable pub write_tags : List DedupTag → List DedupTag → List DedupTag
write_tags [] index = index
write_tags (t ∷ tags) index = write_tags tags (
    if any (is_tag t) index
    then update_where (is_tag t) (λ (d : DedupTag). record d { sha256 = t.sha256 }) index
    else index ++ (t ∷ []))

unfoldable pub write_material : Material → Tables → Tables
write_material m t = record t {
  blob_keys = write_envelopes m.envelopes t.blob_keys;
  dedup_index = write_tags m.dedup_tags t.dedup_index;
}

-- The scopes that the account can read in the vault: the vault's own, and those of the shares that it
-- has joined there and not left.
abbrev pub is_own_scope : Str → Str → Str → Vault → Bool
is_own_scope user vault scope v = v.id == vault && v.user_id == user && v.vault_key_id == scope

abbrev pub is_joined_member : Str → Str → Share → Member → Bool
is_joined_member user vault s m =
    m.share_id == s.id
    && equals m.vault_id vault
    && m.user_id == user
    && not (is_null m.joined_at)
    && is_null m.left_at

abbrev pub readable : Str → Str → Tables → Str → Bool
readable user vault t scope =
    any (is_own_scope user vault scope) t.vaults
    || any
        (λ (s : Share).
          equals s.subtree_key_id scope && any (is_joined_member user vault s) t.share_members)
        t.shares

unfoldable pub dedup_lookup : Str → Str → List Str → Tables → List (Str × Str)
dedup_lookup user vault tags t =
    map (λ (d : DedupTag). (d.content_tag, d.sha256))
      (filter (λ (d : DedupTag). readable user vault t d.scope_id && contains d.content_tag tags)
        t.dedup_index)
