-- ===== src/Server/Rate/Bounds.antt =====
-- No account is ever granted more than its limit in a window.
use mathlib.Core.List.{foldl}
use native.Mathlib.Nat.{le_trans, le_of_eq, add-zero}
use obsidian_syncserver.Prelude.{
  ℕ, ◌+◌, ◌-◌, ◌≤◌, ◌≡◌, refl, List, [], ◌∷◌, ◌++◌, Str, lookup, lookup-insert_self,
  lookup-insert_ne, insert, sym, true, false, ltb, str_beq, Bool-cases, str_eq, ◌==◌, subst,
  str_beq-cases, arith, inl, inr, if◌then◌else◌,
}
use obsidian_syncserver.Server.Rate.{
  Grant, Windows, Reply, ok, retry_after, window_or_empty, recent, total, reserve,
}

pub total-append : (a b : List Grant) → total (a ++ b) ≡ total a + total b
total-append [] b = omega arith
total-append (e ∷ a) b = omega (arith, total-append a b)

pub total-recent : (t : ℕ) (grants : List Grant) → total (recent t grants) ≤ total grants
total-recent t [] = omega arith
total-recent t (e ∷ grants) = ground (arith, total-recent t grants)

total-recent-append :
    (t : ℕ) (a b : List Grant) → total (recent t (a ++ b)) ≡ total (recent t a) + total (recent t b)
total-recent-append t [] b = omega arith
total-recent-append t (e ∷ a) b = ground (arith, total-recent-append t a b)

-- What was pruned earlier is outside every later window.
total-recent-recent :
    (t u : ℕ) (grants : List Grant)
    → t ≤ u
    → total (recent u (recent t grants)) ≡ total (recent u grants)
total-recent-recent t u [] h = refl
total-recent-recent t u (e ∷ grants) h = ground (arith, total-recent-recent t u grants h)

pub record Request : Type 0 where
  pub user : Str
  pub bytes : ℕ
  pub at : ℕ

abbrev pub grant_of : Request → Grant
grant_of r = record { at = r.at; bytes = r.bytes }

-- The limiter's windows, and what one account was granted so far.
pub record History : Type 0 where
  pub windows : Windows
  pub log : List Grant

abbrev log_reply : Str → Request → Reply → List Grant → List Grant
log_reply user r ok log = if r.user == user then log ++ (grant_of r ∷ []) else log
log_reply user r (retry_after n) log = log

pub serve : ℕ → Str → History → Request → History
serve limit user h r =
    let (reply, s) = reserve limit r.user r.bytes r.at h.windows in
    record { windows = s; log = log_reply user r reply h.log }

pub granted : ℕ → Str → List Request → List Grant
unfolding serve
granted limit user requests =
    (foldl (serve limit user) (record { windows = []; log = [] }) requests).log

-- The requests come in the order of their times, from `t` to `now`.
abbrev pub InOrder : ℕ → List Request → ℕ → Type 0
InOrder t [] now = t ≤ now
InOrder t (r ∷ requests) now = (t ≤ r.at) × InOrder r.at requests now

module _ (limit : ℕ) (user : Str) where
  abbrev held : Windows → List Grant
  held s = window_or_empty (lookup user s)

  record Tracks (t : ℕ) (h : History) : Type 0 where
    same : (d : ℕ) → total (recent (t + d) (held h.windows)) ≡ total (recent (t + d) h.log)
    fits : total (held h.windows) ≤ limit

  later : (t u : ℕ) (h : History) → t ≤ u → Tracks t h → Tracks u h
  later t u h le k = record {
    same = λ d.
        subst (λ v. total (recent v (held h.windows)) ≡ total (recent v h.log)) (omega arith)
          (k.same (u - t + d));
    fits = k.fits;
  }

  -- The account's own request, granted and refused.
  own-Tracks :
      (s : Windows) (log : List Grant) (t : ℕ) (extra : List Grant)
      → Tracks t (record { windows = s; log = log })
      → total (recent t (held s) ++ extra) ≤ limit
      → Tracks t
          (record { windows = insert user (recent t (held s) ++ extra) s; log = log ++ extra })
  own-Tracks s log t extra k fits = record {
    same = λ d. rw lookup-insert_self (
        omega (
          arith,
          total-recent-append (t + d) (recent t (held s)) extra,
          total-recent-append (t + d) log extra,
          total-recent-recent t (t + d) (held s) (omega arith),
          k.same d,
        ));
    fits = rw lookup-insert_self fits;
  }

  pruned-Tracks :
      (s : Windows) (log : List Grant) (t : ℕ)
      → Tracks t (record { windows = s; log = log })
      → Tracks t (record { windows = insert user (recent t (held s)) s; log = log })
  pruned-Tracks s log t k = record {
    same = λ d.
        rw lookup-insert_self
          (omega (arith, total-recent-recent t (t + d) (held s) (omega arith), k.same d));
    fits = rw lookup-insert_self (omega (arith, total-recent t (held s), k.fits));
  }

  other-Tracks :
      (s : Windows) (log : List Grant) (t : ℕ) (key : Str) (w : List Grant)
      → str_beq key user ≡ false
      → Tracks t (record { windows = s; log = log })
      → Tracks t (record { windows = insert key w s; log = log })
  other-Tracks s log t key w f k = record {
    same = λ d. rw (lookup-insert_ne key user w s f) (k.same d);
    fits = rw (lookup-insert_ne key user w s f) k.fits;
  }

  serve_refused :
      (h : History) (r : Request)
      → ltb limit (total (recent r.at (window_or_empty (lookup r.user h.windows))) + r.bytes) ≡ true
      → serve limit user h r ≡ record {
        windows = insert r.user (recent r.at (window_or_empty (lookup r.user h.windows))) h.windows;
        log = h.log;
      }
  unfolding serve reserve
  serve_refused h r over = ground arith

  serve_granted :
      (h : History) (r : Request)
      → ltb limit (total (recent r.at (window_or_empty (lookup r.user h.windows))) + r.bytes)
        ≡ false
      → serve limit user h r ≡ record {
        windows =
            insert r.user
              (recent r.at (window_or_empty (lookup r.user h.windows)) ++ (grant_of r ∷ []))
              h.windows;
        log = if r.user == user then h.log ++ (grant_of r ∷ []) else h.log;
      }
  unfolding serve reserve
  serve_granted h r under = ground arith

  serve-Tracks : (h : History) (r : Request) → Tracks r.at h → Tracks r.at (serve limit user h r)
  serve-Tracks h r k =
      elim (Bool-cases
        (ltb limit (total (recent r.at (window_or_empty (lookup r.user h.windows))) + r.bytes))) [
          | inl over ↦ rw (serve_refused h r over) (elim (str_beq-cases r.user user) [
            | inl (t, e) ↦
                subst
                  (λ u. Tracks r.at (record {
                    windows =
                        insert u (recent r.at (window_or_empty (lookup u h.windows))) h.windows;
                    log = h.log;
                  }))
                  (sym e) (pruned-Tracks h.windows h.log r.at k)
            | inr (f, e) ↦ other-Tracks h.windows h.log r.at r.user _ f k
          ])
          | inr under ↦ rw (serve_granted h r under) (elim (str_beq-cases r.user user) [
            | inl (t, e) ↦ rw t (
                subst
                  (λ u. Tracks r.at (record {
                    windows =
                        insert u
                          (recent r.at (window_or_empty (lookup u h.windows)) ++ (grant_of r ∷ []))
                          h.windows;
                    log = h.log ++ (grant_of r ∷ []);
                  }))
                  (sym e)
                  (own-Tracks h.windows h.log r.at (grant_of r ∷ []) k (
                    subst
                      (λ u.
                        total
                          (recent r.at (window_or_empty (lookup u h.windows)) ++ (grant_of r ∷ []))
                        ≤ limit)
                      e
                      (ground (
                        arith,
                        total-append (recent r.at (window_or_empty (lookup r.user h.windows)))
                            (grant_of r ∷ []),
                      )))))
            | inr (f, e) ↦ rw f (other-Tracks h.windows h.log r.at r.user _ f k)
          ])
        ]

  all-Tracks :
      (t now : ℕ) (requests : List Request) (h : History)
      → InOrder t requests now
      → Tracks t h
      → Tracks now (foldl (serve limit user) h requests)
  all-Tracks t now [] h o k = later t now h o k
  all-Tracks t now (r ∷ requests) h (le, o) k =
      all-Tracks r.at now requests (serve limit user h r) o (serve-Tracks h r (later t r.at h le k))

-- Whatever requests come, in the order of their times, the bytes granted to an account during the
-- minute that ends at any later moment are within its limit.
pub granted-le-limit :
    (limit : ℕ) (user : Str) (requests : List Request) (now : ℕ)
    → InOrder 0 requests now
    → total (recent now (granted limit user requests)) ≤ limit
unfolding granted
granted-le-limit limit user requests now o =
    let k = all-Tracks limit user 0 now requests (record { windows = []; log = [] }) o start in
    le_trans
      (le_of_eq (
        subst
          (λ v.
            total (recent v (granted limit user requests))
            ≡ total (
                recent v (
                  held limit user
                    (foldl (serve limit user) (record { windows = []; log = [] })
                      requests).windows)))
          (add-zero now) (sym (k.same 0))))
      (le_trans (total-recent now _) k.fits)
  where
    start : Tracks limit user 0 (record { windows = []; log = [] })
    start = record { same = λ d. unfold lookup in refl; fits = unfold lookup in omega arith }
