-- ===== src/Server/Delta/Series.antt =====
-- A series of requests for the delta (server/src/delta/routes.ts): the pages together.
use obsidian_syncserver.Prelude.{
  ℕ, suc, ◌≤◌, ◌<◌, ◌≡◌, refl, sym, ap, ◌∙◌, subst, subst⁻¹, Elem, Elem-map, map-Elem, ◌↔◌, inl,
  inr, Bool, true, false, none, some, List, [], ◌∷◌, ◌++◌, Str, map, take, drop, filter,
  filter-Elem, length, All, ltb, arith, Bool-cases, if◌then◌else◌, ltb→lt,
}
use obsidian_syncserver.Server.Store.{JournalRow, Tables}
use obsidian_syncserver.Server.Delta.{
  ChangeRow, VaultPosition, CursorPayload, Page, bound, last_rev, delta_page, rows_between, after,
  change_of, cursor_at,
}
use obsidian_syncserver.Server.Delta.Cuts.{
  Ascending, filter-Ascending, filter-last, take-drop, length-drop, map-append,
}
use obsidian_syncserver.Server.Delta.Ascending.{Keyed, rows_between-Ascending, rows_between-later}
use obsidian_syncserver.Server.Delta.Steady.{GoesOn, rows_between-GoesOn}
use obsidian_syncserver.Server.Delta.Latest.{
  LatestRow, rows_between-LatestRow, LatestRow-rows_between,
}
use obsidian_syncserver.Server.Delta.Pages.{
  change_key, row_key, map-change_of, page-last, page-more, last_rev-after, after-after,
}

-- What a client has after a series of requests, and the cursor that it holds.
pub record Series : Type 0 where
  pub changes : List ChangeRow
  pub cursor : CursorPayload
  pub complete : Bool

abbrev pub with_page : Page → Series → Series
with_page page rest = record {
  changes = page.changes ++ rest.changes;
  cursor = rest.cursor;
  complete = rest.complete;
}

-- At most `fuel` requests with one limit, each with the cursor of the answer before; the tables and
-- the position are those at the moment of each request, the first of the list first.
module _ (user vault : Str) (limit : ℕ) where
  unfoldable pub series : List (Tables × VaultPosition) → CursorPayload → Series
  series [] cursor = record { changes = []; cursor = cursor; complete = false }
  series (moment ∷ moments) cursor =
      let page = delta_page moment.0 user vault moment.1 cursor limit in
      let rest = series moments page.next_cursor in
      if page.has_more
      then with_page page rest
      else record { changes = page.changes; cursor = page.next_cursor; complete = true }

-- The series has ended: it told these rows, and its cursor is at the bound.
abbrev Told : ℕ → List JournalRow → Series → Type 0
Told hwm rows s =
    (map change_key s.changes ≡ map row_key rows)
    × (s.complete ≡ true)
    × (s.cursor.rev ≡ hwm)
    × (s.cursor.hwm ≡ none)

Told-with_page :
    (t : Tables) (hwm n : ℕ) (rows : List JournalRow) (next : CursorPayload) (s : Series)
    → Told hwm (drop n rows) s
    → Told hwm rows (
        with_page
          (record {
            changes = map (change_of t) (take n rows);
            next_cursor = next;
            has_more = true;
          })
          s)
Told-with_page t hwm n rows next s (keys, complete, rev, pin) = (
  map-append change_key (map (change_of t) (take n rows)) s.changes
      ∙ ap (λ ks. ks ++ map change_key s.changes) (map-change_of t (take n rows))
      ∙ ap (λ ks. map row_key (take n rows) ++ ks) keys
      ∙ sym (map-append row_key (take n rows) (drop n rows))
      ∙ ap (map row_key) (take-drop n rows),
  complete,
  rev,
  pin,
)

module _ (user vault : Str) (n hwm from : ℕ) (rows : List JournalRow)
    (asc : Ascending (λ (j : JournalRow). j.rev) rows) where
  -- The first request has this bound.
  abbrev Starts : CursorPayload → List (Tables × VaultPosition) → Type 0
  Starts cursor [] = Unit
  Starts cursor (moment ∷ moments) = bound cursor moment.1 ≡ hwm

  abbrev Steady : List (Tables × VaultPosition) → Type 0
  Steady = All (λ (moment : Tables × VaultPosition). rows_between moment.0 vault from hwm ≡ rows)

  Starts-pinned :
      (at : VaultPosition) (rev : ℕ) (moments : List (Tables × VaultPosition))
      → Starts (cursor_at user vault at rev (some hwm)) moments
  Starts-pinned at rev [] = tt
  Starts-pinned at rev (moment ∷ moments) = refl

  series-Told :
      (moments : List (Tables × VaultPosition)) (cursor : CursorPayload)
      → from ≤ cursor.rev
      → Starts cursor moments
      → Steady moments
      → length (filter (after cursor.rev) rows) < length moments
      → Told hwm (filter (after cursor.rev) rows) (series user vault (suc n) moments cursor)
  unfolding series
  series-Told [] cursor l b s f = absurd (omega arith)
  series-Told (moment ∷ moments) cursor l b (same, s) f =
      let left = filter (after cursor.rev) rows in
      let next_rev = last_rev (λ (j : JournalRow). j.rev) hwm (take (suc n) left) in
      let er : rows_between moment.0 vault cursor.rev hwm ≡ left =
        rows_between-later moment.0 vault from cursor.rev hwm l
        ∙ ap (filter (after cursor.rev)) same in
      let past : suc n < length left → cursor.rev < next_rev = λ m.
        last_rev-after n cursor.rev hwm left
          (λ j e. ltb→lt cursor.rev j.rev (filter-Elem (after cursor.rev) j rows e).1)
          (filter-Ascending _ (after cursor.rev) rows asc) (omega (arith, m)) in
      let cut : suc n < length left → filter (after next_rev) rows ≡ drop (suc n) left = λ m.
        sym (after-after cursor.rev next_rev rows (omega (arith, past m)))
        ∙ filter-last _ n hwm left (omega (arith, m))
            (filter-Ascending _ (after cursor.rev) rows asc) in
      elim (Bool-cases (ltb (suc n) (length left))) [
        | inl t ↦
            let m : suc n < length left = ltb→lt (suc n) (length left) t in
            let next = cursor_at user vault moment.1 next_rev (some hwm) in
            let tail = series user vault (suc n) moments next in
            rw (series, page-more moment.0 user vault moment.1 cursor (suc n) hwm left b er m)
              (Told-with_page moment.0 hwm (suc n) left next tail (
                subst (λ rs. Told hwm rs tail) (cut m)
                  (series-Told moments next (omega (arith, past m))
                    (Starts-pinned moment.1 next_rev moments) s
                    (rw (cut m) (omega (arith, length-drop (suc n) left m))))))
        | inr g ↦
            rw
              (
                series,
                page-last moment.0 user vault moment.1 cursor (suc n) hwm left b er
                    (ground (arith, g)),
              )
              (map-change_of moment.0 left, refl, refl, refl)
      ]

All-map :
    {A : Type 0} {P Q : A → Type 0} (xs : List A) → ((a : A) → P a → Q a) → All P xs → All Q xs
All-map [] f h = tt
All-map (x ∷ xs) f (p, h) = (f x p, All-map xs f h)

-- The same over the rows of the query.
series-ends :
    (user vault : Str) (n : ℕ) (cursor : CursorPayload) (t : Tables) (at : VaultPosition)
    (moments : List (Tables × VaultPosition))
    → Keyed t.journal
    → All (λ (moment : Tables × VaultPosition). GoesOn vault (bound cursor at) t moment.0) moments
    → length (rows_between t vault cursor.rev (bound cursor at)) ≤ length moments
    → Told
        (bound cursor at)
        (rows_between t vault cursor.rev (bound cursor at))
        (series user vault (suc n) ((t, at) ∷ moments) cursor)
series-ends user vault n cursor t at moments keyed on l =
    let hwm = bound cursor at in
    let rows = rows_between t vault cursor.rev hwm in
    let all_left : filter (after cursor.rev) rows ≡ rows =
      sym (rows_between-later t vault cursor.rev cursor.rev hwm (omega arith)) in
    let steady =
      All-map moments (λ moment goes. rows_between-GoesOn vault hwm t moment.0 goes cursor.rev)
        on in
    subst (λ rs. Told hwm rs (series user vault (suc n) ((t, at) ∷ moments) cursor)) all_left
      (series-Told user vault n hwm cursor.rev rows
        (rows_between-Ascending t vault cursor.rev hwm keyed) ((t, at) ∷ moments) cursor
        (omega arith) refl (refl, steady) (rw all_left (omega (arith, l))))

map-Ascending :
    (rows : List JournalRow)
    → Ascending (λ (j : JournalRow). j.rev) rows
    → Ascending (λ (key : Str × ℕ). key.1) (map row_key rows)
map-Ascending [] s = tt
map-Ascending (j ∷ rows) (low, s) = (
  λ key m.
      let (l, i, e) = map-Elem row_key key rows m in
      subst⁻¹ (λ (k : Str × ℕ). j.rev < k.1) e (low l i),
  map-Ascending rows s,
)

-- The series has ended with its cursor at the bound. The revisions told strictly rise, and a node is
-- told at a revision exactly where that is its latest row in the snapshot.
abbrev pub ToldLatest : Tables → Str → ℕ → ℕ → Series → Type 0
ToldLatest t vault from hwm s =
    Ascending (λ (key : Str × ℕ). key.1) (map change_key s.changes)
    × ((node : Str) (rev : ℕ)
        → Elem (node, rev) (map change_key s.changes) ↔ LatestRow t vault from hwm node rev)
    × (s.complete ≡ true)
    × (s.cursor.rev ≡ hwm)
    × (s.cursor.hwm ≡ none)

Told-latest :
    (t : Tables) (vault : Str) (from hwm : ℕ) (s : Series)
    → Keyed t.journal
    → Told hwm (rows_between t vault from hwm) s
    → ToldLatest t vault from hwm s
Told-latest t vault from hwm s keyed (keys, complete, rev, pin) =
    let rows = rows_between t vault from hwm in
    (
      subst⁻¹ (Ascending (λ (key : Str × ℕ). key.1)) keys
          (map-Ascending rows (rows_between-Ascending t vault from hwm keyed)),
      λ node r. (
        λ m.
            let (j, i, e) = map-Elem row_key (node, r) rows (subst (Elem (node, r)) keys m) in
            subst⁻¹ (λ (k : Str × ℕ). LatestRow t vault from hwm k.0 k.1) e
              (rows_between-LatestRow t vault from hwm j i),
        λ latest.
            let (j, i, e1, e2) = LatestRow-rows_between t vault from hwm node r latest in
            let same : row_key j ≡ (node, r) = cc in
            subst⁻¹ (Elem (node, r)) keys
              (subst (λ (k : Str × ℕ). Elem k (map row_key rows)) same (Elem-map row_key j rows i)),
      ),
      complete,
      rev,
      pin,
    )

-- Where no two rows of the journal have one vault and one revision, a series of requests with one
-- limit, of at least one row, ends, while its vault goes on being written, after as many requests as
-- the snapshot has rows to tell and one more. Its pages together tell, in the order of revision, the
-- latest row in the snapshot of each node that is there, and nothing else: the row of the vault's
-- journal after the client's revision and up to the bound that the first request has pinned, where the
-- node has no later one up to that bound. The cursor is then at the bound. What is journalled meanwhile
-- is beyond the bound, and the nodes that the journal named are not removed for good.
pub series_complete :
    (user vault : Str) (n : ℕ) (cursor : CursorPayload) (t : Tables) (at : VaultPosition)
    (moments : List (Tables × VaultPosition))
    → Keyed t.journal
    → All (λ (moment : Tables × VaultPosition). GoesOn vault (bound cursor at) t moment.0) moments
    → length (rows_between t vault cursor.rev (bound cursor at)) ≤ length moments
    → ToldLatest t vault cursor.rev
        (bound cursor at)
        (series user vault (suc n) ((t, at) ∷ moments) cursor)
series_complete user vault n cursor t at moments keyed on l =
    Told-latest t vault cursor.rev (bound cursor at)
      (series user vault (suc n) ((t, at) ∷ moments) cursor) keyed
      (series-ends user vault n cursor t at moments keyed on l)
