-- ===== src/Server/Collector/Safety.antt =====
-- What a pass of server/src/collector.ts cannot take.
use obsidian_syncserver.Prelude.{
  ℕ, ◌≡◌, refl, ◌↔◌, ◌⊎◌, inl, inr, Bool, true, false, not, ◌&&◌, ◌||◌, none, some, List, [], ◌∷◌,
  map, Elem, Str, ◌==◌, filter, filter-Elem, Elem-filter, contains, contains→Elem, Elem→contains,
  str_eq, str_beq_iff, arith, Bool-cases, sym, subst, filter_ext, filter-all, filter-filter, ap,
  ◌∙◌,
}
use obsidian_syncserver.Server.Store.{Blob, Tables}
use obsidian_syncserver.Server.Retention.Marking.{Named, referenced_iff}
use obsidian_syncserver.Server.Collector.{
  set_before, condemned, sweep_condemned, claimed_keys, Files, Removal, after_remove, remove_files,
  remove_orphans,
}

-- A blob outlives the sweep exactly when a claim, a node or a version names its bytes, or it was not
-- marked, or its mark is not older than the quarantine.
pub sweep_condemned_iff :
    (t : Tables) (quarantine now : ℕ) (b : Blob)
    → Elem b t.blobs
    → Elem b ((sweep_condemned quarantine now t).0).blobs
      ↔ (Named t b.sha256 ⊎ (set_before b.gc_marked_at now quarantine ≡ false))
unfolding sweep_condemned
sweep_condemned_iff t quarantine now b m = (
  λ kept.
      let (i, h) = filter-Elem (λ b. not (condemned t quarantine now b)) b t.blobs kept in why.0 h,
  λ w. Elem-filter (λ b. not (condemned t quarantine now b)) b t.blobs m (why.1 w),
)
  where
    why :
        (not (condemned t quarantine now b) ≡ true)
        ↔ (Named t b.sha256 ⊎ (set_before b.gc_marked_at now quarantine ≡ false))
    why = ground (arith, referenced_iff t b)

-- Which files a removal leaves.
abbrev pub stays : (Str → Bool) → List Str → List Str → Str → Bool
stays stuck claimed orphans f = not (contains f orphans) || contains f claimed || stuck f

stays_claimed :
    (stuck : Str → Bool) (claimed orphans : List Str) (key : Str)
    → contains key claimed ≡ true
    → (f : Str) → stays stuck claimed (key ∷ orphans) f ≡ stays stuck claimed orphans f
unfolding contains
stays_claimed stuck claimed orphans key held f = elim (Bool-cases (key == f)) [
  | inr e ↦ rw e refl
  | inl e ↦
      let here : contains f claimed ≡ true =
        subst (λ k. contains k claimed ≡ true) ((str_beq_iff key f).0 e) held in
      ground (arith)
]

stays_stuck :
    (stuck : Str → Bool) (claimed orphans : List Str) (key : Str)
    → stuck key ≡ true
    → (f : Str) → stays stuck claimed (key ∷ orphans) f ≡ stays stuck claimed orphans f
unfolding contains
stays_stuck stuck claimed orphans key held f = elim (Bool-cases (key == f)) [
  | inr e ↦ rw e refl
  | inl e ↦
      let here : stuck f ≡ true = subst (λ k. stuck k ≡ true) ((str_beq_iff key f).0 e) held in
      ground (arith)
]

stays_removed :
    (stuck : Str → Bool) (claimed orphans : List Str) (key : Str)
    → contains key claimed ≡ false
    → stuck key ≡ false
    → (f : Str)
    → stays stuck claimed (key ∷ orphans) f ≡ (not (f == key) && stays stuck claimed orphans f)
unfolding contains
stays_removed stuck claimed orphans key out free f = elim (Bool-cases (key == f)) [
  | inr e ↦ ground (arith, str_beq_iff key f, str_beq_iff f key)
  | inl e ↦
      let same : key ≡ f = (str_beq_iff key f).0 e in
      let out' : contains f claimed ≡ false = subst (λ k. contains k claimed ≡ false) same out in
      let free' : stuck f ≡ false = subst (λ k. stuck k ≡ false) same free in
      ground (arith, (str_beq_iff f key).1 (sym same))
]

remove_files_files :
    (stuck : Str → Bool) (claimed orphans : List Str) (r : Removal)
    → (remove_files stuck claimed orphans r).files ≡ filter (stays stuck claimed orphans) r.files
unfolding remove_files
remove_files_files stuck claimed [] r =
    sym (filter-all (stays stuck claimed []) r.files (λ f m. unfold contains in refl))
remove_files_files stuck claimed (key ∷ orphans) r = elim (Bool-cases (contains key claimed)) [
  | inl held ↦
      rw (held, remove_files_files stuck claimed orphans r)
        (sym (filter_ext _ _ r.files (stays_claimed stuck claimed orphans key held)))
  | inr out ↦ elim (Bool-cases (stuck key)) [
    | inl held ↦
        rw (out, held, remove_files_files stuck claimed orphans (after_remove key r none))
          (sym (filter_ext _ _ r.files (stays_stuck stuck claimed orphans key held)))
    | inr free ↦
        rw
          (
            out,
            free,
            remove_files_files stuck claimed orphans
                (after_remove key r (some (filter (λ f. not (f == key)) r.files))),
          )
          (filter-filter (λ f. not (f == key)) (stays stuck claimed orphans) r.files
            ∙ sym (filter_ext _ _ r.files (stays_removed stuck claimed orphans key out free)))
  ]
]

-- Some blob row has this storage key.
abbrev pub HasRow : Tables → Str → Type 0
HasRow t key = (b : Blob) × Elem b t.blobs × (b.storage_key ≡ key)

claimed-HasRow :
    (t : Tables) (orphans : List Str) (key : Str)
    → contains key (claimed_keys t orphans) ≡ true
    → HasRow t key
claimed-HasRow t orphans key h =
    let (m, o) =
      filter-Elem (λ k. contains k orphans) key (map (λ (b : Blob). b.storage_key) t.blobs)
        (contains→Elem key (claimed_keys t orphans) h) in
    go t.blobs m
  where
    go :
        (bs : List Blob)
        → Elem key (map (λ (b : Blob). b.storage_key) bs)
        → (b : Blob) × Elem b bs × (b.storage_key ≡ key)
    go [] m = absurd m
    go (b ∷ bs) (inl e) = (b, inl refl, sym e)
    go (b ∷ bs) (inr m) = let (c, i, e) = go bs m in (c, inr i, e)

HasRow-claimed :
    (t : Tables) (orphans : List Str) (key : Str)
    → HasRow t key
    → contains key orphans ≡ true
    → contains key (claimed_keys t orphans) ≡ true
HasRow-claimed t orphans key (b, m, e) o = Elem→contains key (claimed_keys t orphans) (
    Elem-filter (λ k. contains k orphans) key (map (λ (b : Blob). b.storage_key) t.blobs)
      (go t.blobs m) o)
  where
    go : (bs : List Blob) → Elem b bs → Elem key (map (λ (b : Blob). b.storage_key) bs)
    go [] i = absurd i
    go (c ∷ bs) (inl same) = inl (sym e ∙ ap (λ (b : Blob). b.storage_key) same)
    go (c ∷ bs) (inr i) = inr (go bs i)

-- Of the files on disk exactly these outlive the removal: those that are no orphan's, those whose
-- key a row of `blobs` has when the keys are checked again, and those that cannot be removed.
pub remove_orphans_iff :
    (stuck : Str → Bool) (t : Tables) (orphans : List Str) (files : Files) (key : Str)
    → Elem key files
    → Elem key (remove_orphans stuck t orphans files).files
      ↔ ((contains key orphans ≡ false) ⊎ HasRow t key ⊎ (stuck key ≡ true))
unfolding remove_orphans
remove_orphans_iff stuck t orphans files key m = (
  λ kept.
      out
        (filter-Elem _ key files
          (subst (Elem key) (remove_files_files stuck claimed orphans start) kept)).1,
  λ why.
      subst (Elem key) (sym (remove_files_files stuck claimed orphans start))
        (Elem-filter (stays stuck claimed orphans) key files m (back why)),
)
  where
    claimed : List Str
    claimed = claimed_keys t orphans

    start : Removal
    start = record { files = files; files_removed = 0; failed = [] }

    out :
        stays stuck claimed orphans key ≡ true
        → (contains key orphans ≡ false) ⊎ HasRow t key ⊎ (stuck key ≡ true)
    out h = elim (Bool-cases (contains key orphans)) [
      | inr f ↦ inl f
      | inl o ↦ elim (Bool-cases (contains key claimed)) [
        | inl c ↦ inr (inl (claimed-HasRow t orphans key c))
        | inr f ↦ inr (inr (ground arith))
      ]
    ]

    back :
        (contains key orphans ≡ false) ⊎ HasRow t key ⊎ (stuck key ≡ true)
        → stays stuck claimed orphans key ≡ true
    back (inl f) = rw f refl
    back (inr (inl row)) =
        ground (arith, Bool-cases (contains key orphans), HasRow-claimed t orphans key row)
    back (inr (inr s)) = ground arith
