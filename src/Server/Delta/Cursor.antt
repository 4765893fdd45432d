-- ===== src/Server/Delta/Cursor.antt =====
-- server/src/delta/cursor.ts: the signed cursor. `sign` is the signature with the server's secret as
-- text, `write` the payload as base64url of its JSON, and `parse` what reads such a text back.
use obsidian_syncserver.Prelude.{
  ℕ, zero, suc, ◌≡◌, refl, sym, ap, ◌∙◌, subst, not, ◌||◌, Option, none, some, [], ◌∷◌, ◌++◌, Str,
  ◌==◌, take, drop, nat_beq, nat_beq_iff, str_eq, Bool-cases, Option-cases, inl, inr, if◌then◌else◌,
}
use obsidian_syncserver.Server.Delta.{CursorPayload}

abbrev pub dot : ℕ
dot = 46

abbrev shifted : Option ℕ → Option ℕ
shifted none = none
shifted (some i) = some (suc i)

-- `indexOf` of one character.
unfoldable pub index_of : ℕ → Str → Option ℕ
index_of c [] = none
index_of c (x ∷ t) = let rest = index_of c t in if nat_beq x c then some 0 else shifted rest

pub data CursorFault : Type 0 where
  cursor_unverifiable : CursorFault
  cursor_wrong_subject : CursorFault

pub data Decoded : Type 0 where
  payload : CursorPayload → Decoded
  fault : CursorFault → Decoded

module _ (sign : Str → Str) where
  abbrev pub encode_cursor : (CursorPayload → Str) → CursorPayload → Str
  encode_cursor write p = write p ++ (dot ∷ sign (write p))

  abbrev pub checked : CursorPayload → Str → Str → Decoded
  checked p user vault =
      if not (nat_beq p.v 1)
      then fault cursor_unverifiable
      else if not (p.uid == user) || not (p.vid == vault)
      then fault cursor_wrong_subject
      else payload p

  abbrev pub read_payload : Option CursorPayload → Str → Str → Decoded
  read_payload none user vault = fault cursor_unverifiable
  read_payload (some p) user vault = checked p user vault

  abbrev pub decode_at : (Str → Option CursorPayload) → Str → Str → Str → Option ℕ → Decoded
  decode_at parse token user vault none = fault cursor_unverifiable
  decode_at parse token user vault (some zero) = fault cursor_unverifiable
  decode_at parse token user vault (some (suc i)) =
      let body = take (suc i) token in
      if not (drop (suc (suc i)) token == sign body)
      then fault cursor_unverifiable
      else read_payload (parse body) user vault

  unfoldable pub decode_cursor : (Str → Option CursorPayload) → Str → Str → Str → Decoded
  decode_cursor parse token user vault = decode_at parse token user vault (index_of dot token)

index_of-some :
    (c : ℕ) (t : Str) (i : ℕ) → index_of c t ≡ some i → t ≡ take i t ++ (c ∷ drop (suc i) t)
unfolding index_of
index_of-some c [] i e = cc
index_of-some c (x ∷ t) i e = elim (Bool-cases (nat_beq x c)) [
  | inl h ↦ here i ((nat_beq_iff x c).0 h) (rw (index_of, h) at e)
  | inr f ↦ elim (Option-cases (index_of c t)) [
    | inl n ↦ cc (rw (index_of, f, n) at e)
    | inr (j, found) ↦ there i j (index_of-some c t j found) (rw (index_of, f, found) at e)
  ]
]
  where
    here : (i : ℕ) → x ≡ c → some 0 ≡ some i → (x ∷ t) ≡ take i (x ∷ t) ++ (c ∷ drop i t)
    here zero h e = ap (λ y. y ∷ t) h
    here (suc i) h e = cc

    there :
        (i j : ℕ)
        → t ≡ take j t ++ (c ∷ drop (suc j) t)
        → some (suc j) ≡ some i
        → (x ∷ t) ≡ take i (x ∷ t) ++ (c ∷ drop i t)
    there zero j h e = cc
    there (suc i) j h e =
        let same : j ≡ i = cc e in
        subst (λ k. (x ∷ t) ≡ x ∷ (take k t ++ (c ∷ drop (suc k) t))) same (ap (λ ts. x ∷ ts) h)

checked-payload :
    (sign : Str → Str) (q p : CursorPayload) (user vault : Str)
    → checked sign q user vault ≡ payload p
    → (q ≡ p) × (q.v ≡ 1) × (q.uid ≡ user) × (q.vid ≡ vault)
checked-payload sign q p user vault e = elim (Bool-cases (nat_beq q.v 1)) [
  | inr f ↦ cc (rw f at e)
  | inl t ↦ elim (Bool-cases (q.uid == user)) [
    | inr f ↦ cc (rw (t, f) at e)
    | inl u ↦ elim (Bool-cases (q.vid == vault)) [
      | inr f ↦ cc (rw (t, u, f) at e)
      | inl w ↦ (
        cc (rw (t, u, w) at e),
        (nat_beq_iff q.v 1).0 t,
        (str_eq.same_iff q.uid user).0 u,
        (str_eq.same_iff q.vid vault).0 w,
      )
    ]
  ]
]

-- A payload is accepted only from a token that carries the server's signature of its body, and only
-- for the account and the vault that it names.
module _ (sign : Str → Str) (parse : Str → Option CursorPayload) (token user vault : Str)
    (p : CursorPayload) where
  abbrev pub Signed : Type 0
  Signed =
      (body : Str) × (token ≡ body ++ (dot ∷ sign body))
      × (parse body ≡ some p)
      × (p.v ≡ 1)
      × (p.uid ≡ user)
      × (p.vid ≡ vault)

  pub decode_cursor-Signed : decode_cursor sign parse token user vault ≡ payload p → Signed
  unfolding decode_cursor
  decode_cursor-Signed e = go (index_of dot token) refl e
    where
      read :
          (body : Str) (o : Option CursorPayload)
          → token ≡ body ++ (dot ∷ sign body)
          → parse body ≡ o
          → read_payload sign o user vault ≡ payload p
          → Signed
      read body none t h e = cc
      read body (some q) t h e =
          let (same, v, uid, vid) = checked-payload sign q p user vault e in
          (
            body,
            t,
            h ∙ ap some same,
            ap (λ (r : CursorPayload). r.v) (sym same) ∙ v,
            ap (λ (r : CursorPayload). r.uid) (sym same) ∙ uid,
            ap (λ (r : CursorPayload). r.vid) (sym same) ∙ vid,
          )

      go :
          (o : Option ℕ)
          → index_of dot token ≡ o
          → decode_at sign parse token user vault o ≡ payload p
          → Signed
      go none h e = cc
      go (some zero) h e = cc
      go (some (suc i)) h e =
          let body = take (suc i) token in
          elim (Bool-cases (drop (suc (suc i)) token == sign body)) [
            | inl t ↦
                read body (parse body)
                  (index_of-some dot token (suc i) h
                    ∙ ap (λ tag. body ++ (dot ∷ tag))
                        ((str_eq.same_iff (drop (suc (suc i)) token) (sign body)).0 t))
                  refl (rw t at e)
            | inr f ↦ cc (rw f at e)
          ]
