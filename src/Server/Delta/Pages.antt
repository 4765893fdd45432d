-- ===== src/Server/Delta/Pages.antt =====
-- What one answer of the delta (server/src/delta/routes.ts) tells of the rows that are left.
use obsidian_syncserver.Prelude.{
  ℕ, suc, ◌≤◌, ◌<◌, ◌≡◌, refl, ap, ◌∙◌, inl, true, false, Option, none, some, List, [], ◌∷◌, Elem,
  Str, map, take, filter, filter-filter, filter_ext, length, ltb, arith, lt→ltb,
}
use obsidian_syncserver.Server.Store.{Node, JournalRow, Tables, one_where}
use obsidian_syncserver.Server.Delta.{
  ChangeRow, VaultPosition, CursorPayload, bound, last_rev, delta_page, rows_between, after,
  change_of, change_with, read_changes, cursor_at,
}
use obsidian_syncserver.Server.Replica.{is_node}
use obsidian_syncserver.Server.Delta.Cuts.{
  not_below, Ascending, last_rev-take, length-map, take-map, take-take, take-all, length-take_more,
}

-- A change by what the client moves on: the node and the revision.
abbrev pub change_key : ChangeRow → Str × ℕ
change_key c = (c.node_id, c.rev)

abbrev pub row_key : JournalRow → Str × ℕ
row_key j = (j.node_id, j.rev)

change_with-key :
    (t : Tables) (j : JournalRow) (n : Option Node) → change_key (change_with t j n) ≡ row_key j
change_with-key t j none = refl
change_with-key t j (some n) = refl

change_of-key : (t : Tables) (j : JournalRow) → change_key (change_of t j) ≡ row_key j
change_of-key t j = change_with-key t j (one_where (is_node j.vault_id j.node_id) t.nodes)

pub map-change_of :
    (t : Tables) (js : List JournalRow) → map change_key (map (change_of t) js) ≡ map row_key js
map-change_of t [] = refl
map-change_of t (j ∷ js) =
    ap (λ k. k ∷ map change_key (map (change_of t) js)) (change_of-key t j)
    ∙ ap (λ ks. row_key j ∷ ks) (map-change_of t js)

pub last_rev-change_of :
    (t : Tables) (otherwise : ℕ) (js : List JournalRow)
    → last_rev (λ (c : ChangeRow). c.rev) otherwise (map (change_of t) js)
      ≡ last_rev (λ (j : JournalRow). j.rev) otherwise js
unfolding last_rev
last_rev-change_of t otherwise [] = refl
last_rev-change_of t otherwise (j ∷ js) =
    ap (λ r. last_rev (λ (c : ChangeRow). c.rev) r (map (change_of t) js))
      (ap (λ (k : Str × ℕ). k.1) (change_of-key t j))
    ∙ last_rev-change_of t j.rev js

-- The page of the rows that are left.
module _ (t : Tables) (user vault : Str) (at : VaultPosition) (cursor : CursorPayload)
    (limit hwm : ℕ) (rows : List JournalRow) (eb : bound cursor at ≡ hwm)
    (er : rows_between t vault cursor.rev hwm ≡ rows) where
  pub page-last :
      length rows ≤ limit
      → delta_page t user vault at cursor limit ≡ record {
        changes = map (change_of t) rows;
        next_cursor = cursor_at user vault at hwm none;
        has_more = false;
      }
  unfolding delta_page read_changes
  page-last l =
      let few : ltb limit (length (map (change_of t) rows)) ≡ false =
        rw (length-map (change_of t) rows) (not_below limit (length rows) l) in
      rw (delta_page, eb, read_changes, er, take-all (suc limit) rows (omega arith), few) refl

  pub page-more :
      limit < length rows
      → delta_page t user vault at cursor limit ≡ record {
        changes = map (change_of t) (take limit rows);
        next_cursor =
            cursor_at user vault at
              (last_rev (λ (j : JournalRow). j.rev) hwm (take limit rows))
              (some hwm);
        has_more = true;
      }
  unfolding delta_page read_changes
  page-more l =
      let read = take (suc limit) rows in
      let many : ltb limit (length (map (change_of t) read)) ≡ true =
        rw (length-map (change_of t) read, length-take_more limit rows l)
          (lt→ltb limit (suc limit) (omega arith)) in
      let cut : take limit (map (change_of t) read) ≡ map (change_of t) (take limit rows) =
        take-map (change_of t) limit read ∙ ap (map (change_of t)) (take-take limit rows) in
      rw (delta_page, eb, read_changes, er, many, cut, last_rev-change_of t hwm (take limit rows))
        refl

pub last_rev-after :
    (n low otherwise : ℕ) (rows : List JournalRow)
    → ((j : JournalRow) → Elem j rows → low < j.rev)
    → Ascending (λ (j : JournalRow). j.rev) rows
    → n < length rows
    → low < last_rev (λ (j : JournalRow). j.rev) otherwise (take (suc n) rows)
last_rev-after n low otherwise [] h s l = absurd (omega arith)
last_rev-after n low otherwise (j ∷ rows) h s l =
    last_rev-take (λ (j : JournalRow). j.rev) n low otherwise j rows l (h j (inl refl)) s

-- The rows after a later revision, of those after an earlier one.
pub after-after :
    (low rev : ℕ) (rows : List JournalRow)
    → low ≤ rev
    → filter (after rev) (filter (after low) rows) ≡ filter (after rev) rows
after-after low rev rows l =
    filter-filter (after low) (after rev) rows
    ∙ filter_ext _ (after rev) rows (λ j. ground (arith, l))
