-- ===== src/Server/Propagate/FanOut.antt =====
-- `fanOut` of server/src/shares/propagate.ts: which writes reach the other copies, and how.
use obsidian_syncserver.Prelude.{ℕ, Option, none, some, List, [], ◌∷◌, Str}
use obsidian_syncserver.Server.Store.{SealedName, Tables}
use obsidian_syncserver.Server.Tx.{Tx, pure, gets, ◌>>=◌}
use obsidian_syncserver.Server.Propagate.{
  Target, fanout_targets, PutItem, CreateItem, propagate_put, propagate_create, propagate_delete,
  propagate_undelete, propagate_move,
}

-- What happened to the node. `create` and `move` carry the item id of the parent.
pub data FanoutKind : Type 0 where
  created : Option Str → CreateItem → FanoutKind
  written : PutItem → FanoutKind
  deleted : FanoutKind
  undeleted : FanoutKind
  moved : Option Str → SealedName → FanoutKind

pub record FanoutEvent : Type 0 where
  pub vault_id : Str
  pub share_id : Option Str
  pub share_item_id : Option Str
  pub kind : FanoutKind

-- An id that is there: a missing one and the empty text are false.
abbrev pub present : Option Str → Option Str
present none = none
present (some []) = none
present (some (c ∷ s)) = some (c ∷ s)

module _ (new_id : Tables → Str) (now : ℕ) where
  abbrev pub reach : Str → Str → FanoutKind → Option Str → List Target → Tx (Unit {0})
  reach share item (created p made) none targets = pure tt
  reach share item (created p made) (some parent) targets =
      propagate_create new_id now made share item parent targets
  reach share item (written put) parent targets = propagate_put now put item targets
  reach share item deleted parent targets = propagate_delete now item targets
  reach share item undeleted parent targets = propagate_undelete now item targets
  reach share item (moved p name) none targets = pure tt
  reach share item (moved p name) (some parent) targets =
      propagate_move now name item parent targets

  abbrev pub parent_item : FanoutKind → Option Str
  parent_item (created parent made) = present parent
  parent_item (written put) = none
  parent_item deleted = none
  parent_item undeleted = none
  parent_item (moved parent name) = present parent

  abbrev pub fan_out_in : Str → FanoutKind → Option Str → Option Str → Tx (Unit {0})
  fan_out_in vault kind none item = pure tt
  fan_out_in vault kind (some share) none = pure tt
  fan_out_in vault kind (some share) (some item) =
      gets (fanout_targets share vault) >>= reach share item kind (parent_item kind)

  unfoldable pub fan_out : FanoutEvent → Tx (Unit {0})
  fan_out e = fan_out_in e.vault_id e.kind (present e.share_id) (present e.share_item_id)
