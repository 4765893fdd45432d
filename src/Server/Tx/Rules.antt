-- ===== src/Server/Tx/Rules.antt =====
-- What holds after a transaction, and that one which does not answer a value writes nothing
-- (server/src/refusal.ts).
use obsidian_syncserver.Prelude.{
  ◌≡◌, ◌≢◌, refl, ◌⊎◌, inl, inr, Bool, true, false, Option, none, some,
}
use obsidian_syncserver.Server.Store.{Tables}
use obsidian_syncserver.Server.Refusal.{Refusal, DbError, refusal_from_database}
use obsidian_syncserver.Server.Tx.{
  Thrown, db_error, program_error, answer_of_error, answer_of_thrown, Outcome, done, refused, threw,
  Tx, pure, gets, or_refuse, or_throw, refuse_if, when, attempt, ended, continue, ◌>>=◌, Answer,
  value, refusal, failure, commit, close_tx, tx_guarded,
}

-- `Q` holds of the value and the tables with which a transaction comes to its end.
abbrev pub After : {A : Type 0} → (A → Tables → Type 0) → Outcome A → Type 0
After Q (done a t) = Q a t
After Q (refused r t) = Unit
After Q (threw e t) = Unit

-- From tables with `P` a transaction comes to none but such an end.
pub record Ends {A : Type 0} (P : Tables → Type 0) (m : Tx A) (Q : A → Tables → Type 0)
    : Type 0 where
  pub end : (t : Tables) → P t → After Q (m t)

-- A property of the tables that a transaction keeps.
abbrev pub Keeps : {A : Type 0} → (Tables → Type 0) → Tx A → Type 0
Keeps P m = Ends P m (λ a t. P t)

pub After-continue :
    {A B : Type 0} (Q : A → Tables → Type 0) (R : B → Tables → Type 0) (o : Outcome A)
    (f : A → Tx B)
    → After Q o
    → ((a : A) → Ends (Q a) (f a) R)
    → After R (continue o f)
After-continue Q R (done a t) f q rest = (rest a).end t q
After-continue Q R (refused r t) f q rest = tt
After-continue Q R (threw e t) f q rest = tt

pub Ends-weaken :
    {A : Type 0} {P P' : Tables → Type 0} {Q : A → Tables → Type 0} {m : Tx A}
    → ((t : Tables) → P' t → P t)
    → Ends P m Q
    → Ends P' m Q
Ends-weaken weaker e = record { end = λ t p. e.end t (weaker t p) }

-- A weaker end.
pub Ends-then :
    {P Q R : Tables → Type 0} {m : Tx (Unit {0})}
    → ((t : Tables) → Q t → R t)
    → Ends P m (λ u t. Q t)
    → Ends P m (λ u t. R t)
Ends-then {Q = Q} {R = R} {m = m} weaker e = record { end = λ t p. go (m t) (e.end t p) }
  where
    go : (o : Outcome (Unit {0})) → After (λ u t. Q t) o → After (λ u t. R t) o
    go (done u t) q = weaker t q
    go (refused r u) q = tt
    go (threw x u) q = tt

-- A weaker end for each value.
pub Ends-after :
    {A : Type 0} {P : Tables → Type 0} {Q R : A → Tables → Type 0} {m : Tx A}
    → ((a : A) (t : Tables) → Q a t → R a t)
    → Ends P m Q
    → Ends P m R
Ends-after {A = A} {Q = Q} {R = R} {m = m} weaker e = record { end = λ t p. go (m t) (e.end t p) }
  where
    go : (o : Outcome A) → After Q o → After R o
    go (done a t) q = weaker a t q
    go (refused r u) q = tt
    go (threw x u) q = tt

-- A transaction has one end, so two ends hold together.
pub Ends-both :
    {A : Type 0} {P : Tables → Type 0} {Q R : A → Tables → Type 0} {m : Tx A}
    → Ends P m Q
    → Ends P m R
    → Ends P m (λ a t. Q a t × R a t)
Ends-both {A = A} {Q = Q} {R = R} {m = m} q r = record {
  end = λ t p. go (m t) (q.end t p) (r.end t p);
}
  where
    go : (o : Outcome A) → After Q o → After R o → After (λ a t. Q a t × R a t) o
    go (done a t) x y = (x, y)
    go (refused e u) x y = tt
    go (threw e u) x y = tt

-- What holds before, whatever the tables are.
pub Ends-given :
    {A : Type 0} {B : Type 0} {P : Tables → Type 0} {Q : A → Tables → Type 0} {m : Tx A}
    → (B → Ends P m Q)
    → Ends (λ t. B × P t) m Q
Ends-given rest = record { end = λ t p. (rest p.0).end t p.1 }

-- The row that the query is known to find.
pub Ends-found :
    {A : Type 0} {P : Tables → Type 0} (o : Option A) (a : A) (r : Refusal)
    → Ends (λ t. (o ≡ some a) × P t) (or_refuse o r) (λ b t. (b ≡ a) × P t)
Ends-found none a r = record { end = λ t p. tt }
Ends-found (some b) a r = record { end = λ t p. (cc p.0, p.1) }

pub Keeps-pure : {A : Type 0} {P : Tables → Type 0} (a : A) → Keeps P (pure a)
Keeps-pure a = record { end = λ t p. p }

pub Ends-pure :
    {A : Type 0} {P : Tables → Type 0} {Q : A → Tables → Type 0} (a : A)
    → ((t : Tables) → P t → Q a t)
    → Ends P (pure a) Q
Ends-pure a q = record { end = q }

-- Any transaction, where nothing is asked.
pub Ends-nothing : {A : Type 0} {m : Tx A} → Ends (λ t. Unit) m (λ a t. Unit)
Ends-nothing {A = A} {m = m} = record { end = λ t p. go (m t) }
  where
    go : (o : Outcome A) → After (λ a t. Unit) o
    go (done a t) = tt
    go (refused r u) = tt
    go (threw e u) = tt

module _ {P : Tables → Type 0} where
  pub Ends-bind :
      {A B : Type 0} {Q : A → Tables → Type 0} {R : B → Tables → Type 0} {m : Tx A} {f : A → Tx B}
      → Ends P m Q
      → ((a : A) → Ends (Q a) (f a) R)
      → Ends P (m >>= f) R
  Ends-bind {Q = Q} {R = R} {m = m} {f = f} first rest = record {
    end = λ t p. After-continue Q R (m t) f (first.end t p) rest;
  }

  pub Ends-or_refuse :
      {A : Type 0} (o : Option A) (r : Refusal) → Ends P (or_refuse o r) (λ a t. (o ≡ some a) × P t)
  Ends-or_refuse none r = record { end = λ t p. tt }
  Ends-or_refuse (some a) r = record { end = λ t p. (refl, p) }

  pub Ends-or_throw :
      {A : Type 0} (o : Option A) (e : Thrown) → Ends P (or_throw o e) (λ a t. (o ≡ some a) × P t)
  Ends-or_throw none e = record { end = λ t p. tt }
  Ends-or_throw (some a) e = record { end = λ t p. (refl, p) }

  pub Ends-refuse_if : (b : Bool) (r : Refusal) → Ends P (refuse_if b r) (λ u t. (b ≡ false) × P t)
  Ends-refuse_if true r = record { end = λ t p. tt }
  Ends-refuse_if false r = record { end = λ t p. (refl, p) }

  pub Keeps-when : (b : Bool) (m : Tx (Unit {0})) → Keeps P m → Keeps P (when b m)
  Keeps-when true m k = k
  Keeps-when false m k = record { end = λ t p. p }

  pub Keeps-gets : {A : Type 0} {f : Tables → A} → Ends P (gets f) (λ a t. (a ≡ f t) × P t)
  Keeps-gets = record { end = λ t p. (refl, p) }

  -- The same where only the tables matter.
  pub Keeps-read :
      {A B : Type 0} {R : B → Tables → Type 0} {k : A → Tx B} (f : Tables → A)
      → ((a : A) → Ends P (k a) R)
      → Ends P (gets f >>= k) R
  Keeps-read f rest = Ends-bind (Keeps-gets {f = f}) (λ a. Ends-weaken (λ t p. p.1) (rest a))

  pub Keeps-row : {A : Type 0} (o : Option A) (r : Refusal) → Keeps P (or_refuse o r)
  Keeps-row none r = record { end = λ t p. tt }
  Keeps-row (some a) r = record { end = λ t p. p }

  pub Keeps-guard : (b : Bool) (r : Refusal) → Keeps P (refuse_if b r)
  Keeps-guard true r = record { end = λ t p. tt }
  Keeps-guard false r = record { end = λ t p. p }

  pub Ends-attempt :
      {Q : Tables → Type 0} (e : DbError) (f : Tables → Option Tables)
      → ((t s : Tables) → P t → f t ≡ some s → Q s)
      → Ends P (attempt e f) (λ u t. Q t)
  Ends-attempt {Q = Q} e f keeps = record { end = λ t p. go t (f t) (λ s q. keeps t s p q) }
    where
      go :
          (t : Tables) (o : Option Tables)
          → ((s : Tables) → o ≡ some s → Q s)
          → After (λ u s. Q s) (ended e t o)
      go t none k = tt
      go t (some s) k = k s refl

module _ {A : Type 0} where
  abbrev pub IsValue : Answer A → Type 0
  IsValue (value a) = Unit
  IsValue (refusal r) = ⊥
  IsValue (failure e) = ⊥

  -- A property of the tables that the callback keeps is kept by the guarded transaction.
  pub tx_guarded-Keeps :
      (P : Tables → Type 0) (schema : Tables → Option DbError) (fn : Tx A) (t : Tables)
      → Keeps P fn
      → P t
      → P (tx_guarded schema fn t).1
  unfolding tx_guarded
  tx_guarded-Keeps P schema fn t k p = go (fn t) (k.end t p)
    where
      closed : (a : A) (s : Tables) (o : Option DbError) → P s → P (commit a t s o).1
      closed a s none q = q
      closed a s (some e) q = p

      go : (o : Outcome A) → After (λ a s. P s) o → P (close_tx schema t o).1
      go (done a s) q = closed a s (schema s) q
      go (refused r u) q = p
      go (threw e u) q = p

  -- A guarded transaction answers a value exactly where its callback comes to its end with that value
  -- and the database's deferred checks pass the tables with which it ended, and these are then the
  -- tables. In every other case, a refusal that the callback returned, an exception and a failed commit
  -- alike, it answers no value and the tables are as they were before it, whatever was written.
  pub tx_guarded-atomic :
      (schema : Tables → Option DbError) (fn : Tx A) (t : Tables)
      → ((a : A) (s : Tables)
          → fn t ≡ done a s
          → schema s ≡ none
          → tx_guarded schema fn t ≡ (value a, s))
        × (((a : A) × ((tx_guarded schema fn t).0 ≡ value a)
              × (fn t ≡ done a (tx_guarded schema fn t).1)
              × (schema (tx_guarded schema fn t).1 ≡ none))
            ⊎ (((a : A) → (tx_guarded schema fn t).0 ≢ value a) × ((tx_guarded schema fn t).1 ≡ t)))
  unfolding tx_guarded
  tx_guarded-atomic schema fn t = (passed, go (fn t))
    where
      Whole : Outcome A → Answer A × Tables → Type 0
      Whole o end =
          ((a : A) × (end.0 ≡ value a) × (o ≡ done a end.1) × (schema end.1 ≡ none))
          ⊎ (((a : A) → end.0 ≢ value a) × (end.1 ≡ t))

      passed :
          (a : A) (s : Tables)
          → fn t ≡ done a s
          → schema s ≡ none
          → close_tx schema t (fn t) ≡ (value a, s)
      passed a s e f = rw (e, f) refl

      error_no_value : (e : DbError) (o : Option Refusal) (a : A) → answer_of_error e o ≢ value a
      error_no_value e none a = cc
      error_no_value e (some r) a = cc

      no_value : (e : Thrown) (a : A) → answer_of_thrown e ≢ value a
      no_value (db_error e) a = error_no_value e (refusal_from_database e) a
      no_value program_error a = cc

      closed :
          (a : A) (s : Tables) (o : Option DbError)
          → schema s ≡ o
          → Whole (done a s) (commit a t s o)
      closed a s none f = inl (a, refl, refl, f)
      closed a s (some e) f = inr (no_value (db_error e), refl)

      go : (o : Outcome A) → Whole o (close_tx schema t o)
      go (done a s) = closed a s (schema s) refl
      go (refused r u) = inr (λ a. cc, refl)
      go (threw e u) = inr (no_value e, refl)
