-- ===== src/Plugin/Unseen.antt =====
-- plugin/src/unseen.ts: the marks on what another account wrote and on the conflicts left open.
-- A `Record` of marks is a dictionary; its stylesheet and its label are not modelled.
pub mod Seen
use obsidian_syncserver.Prelude.{
  ℕ, ◌+◌, Bool, true, false, not, ◌&&◌, ◌||◌, Option, none, some, List, [], ◌∷◌, ◌++◌, Str, codes,
  ◌==◌, length, drop, filter, starts_with, Dict, lookup, insert, truthy, str_eq, option_eq,
  if◌then◌else◌,
}

pub data MarkKind : Type 0 where
  arrived : MarkKind
  changed : MarkKind
  joined : MarkKind
  conflict : MarkKind

pub record Mark : Type 0 where
  pub kind : MarkKind
  pub at : ℕ

abbrev pub Marks : Type 0
Marks = Dict Mark

-- engine/engine.ts
pub record Arrival : Type 0 where
  pub path : Str
  pub is_new : Bool
  pub author_id : Option Str
  pub share_root : Option Str
  pub first_from_share : Bool

abbrev pub is_arrived : MarkKind → Bool
is_arrived arrived = true
is_arrived changed = false
is_arrived joined = false
is_arrived conflict = false

abbrev pub is_joined : MarkKind → Bool
is_joined joined = true
is_joined arrived = false
is_joined changed = false
is_joined conflict = false

abbrev pub is_conflict : MarkKind → Bool
is_conflict conflict = true
is_conflict arrived = false
is_conflict changed = false
is_conflict joined = false

-- `folder + '/'` begins the path.
abbrev pub under : Str → Str → Bool
under path folder = starts_with path (folder ++ codes "/")

-- `out[a.path]?.kind === kind`
abbrev pub marked_as : (MarkKind → Bool) → Option Mark → Bool
marked_as is none = false
marked_as is (some m) = is m.kind

-- `out[key] ??= mark`
abbrev pub insert_missing : Str → Mark → Option Mark → Marks → Marks
insert_missing key mark none marks = insert key mark marks
insert_missing key mark (some m) marks = marks

-- `!a.shareRoot || !a.authorId || a.authorId === me`
abbrev pub not_news : Str → Arrival → Bool
not_news me a = not (truthy a.share_root) || not (truthy a.author_id) || a.author_id == some me

abbrev pub root_or_empty : Option Str → Str
root_or_empty none = []
root_or_empty (some root) = root

abbrev pub mark_joined : ℕ → Str → Marks → Marks
mark_joined now root out =
    insert_missing root (record { kind = joined; at = now }) (lookup root out) out

abbrev pub mark_path : ℕ → Arrival → Marks → Marks
mark_path now a out =
    if marked_as is_arrived (lookup a.path out)
    then out
    else insert a.path (record { kind = if a.is_new then arrived else changed; at = now }) out

unfoldable pub mark_arrival : Str → ℕ → Marks → Arrival → Marks
mark_arrival me now out a =
    if not_news me a
    then out
    else if a.first_from_share
    then mark_joined now (root_or_empty a.share_root) out
    else mark_path now a out

unfoldable pub mark_arrivals : Str → ℕ → List Arrival → Marks → Marks
mark_arrivals me now [] out = out
mark_arrivals me now (a ∷ pulled) out = mark_arrivals me now pulled (mark_arrival me now out a)

unfoldable pub mark_conflicts : ℕ → List Str → Marks → Marks
mark_conflicts now [] out = out
mark_conflicts now (path ∷ conflicts) out =
    mark_conflicts now conflicts (insert path (record { kind = conflict; at = now }) out)

unfoldable pub after_pass : Marks → List Arrival → List Str → Str → ℕ → Marks
after_pass marks pulled conflicts me now =
    mark_conflicts now conflicts (mark_arrivals me now pulled marks)

-- What a look at `path` clears: its own mark, unless it is a conflict's, and that of a share root
-- above it.
abbrev pub cleared_by : Str → Str × Mark → Bool
cleared_by path (p, m) =
    (p == path && not (is_conflict m.kind)) || (is_joined m.kind && under path p)

unfoldable pub opened : Marks → Str → Marks
opened marks path = filter (λ e. not (cleared_by path e)) marks

abbrev pub renamed_path : Str → Str → Str → Str
renamed_path from to p =
    if p == from then to else if under p from then to ++ drop (length from) p else p

-- The loop over the entries, with what `out` holds already.
unfoldable pub renamed_onto : Str → Str → Marks → Marks → Marks
renamed_onto from to [] out = out
renamed_onto from to ((p, m) ∷ marks) out =
    renamed_onto from to marks (insert (renamed_path from to p) m out)

unfoldable pub renamed : Marks → Str → Str → Marks
renamed marks from to = renamed_onto from to marks []

unfoldable pub removed : Marks → Str → Marks
removed marks path = filter (λ ((p, m) : Str × Mark). not (p == path) && not (under p path)) marks

unfoldable pub all_seen : Marks → Marks
all_seen marks = filter (λ ((p, m) : Str × Mark). is_conflict m.kind) marks
