-- ===== src/Prelude/Text.antt =====
-- JavaScript strings as lists of UTF-16 code units, with the methods that the source calls.
use Prim.Native.Char.{code}
use Prim.Native.Nat.{ℕ, zero, suc, ◌-◌, ◌<◌, ◌≤◌}
use Prim.Native.String.{String}
use mathlib.Core.Path.{◌≡◌, refl, ap}
use mathlib.Core.Logic.{◌↔◌, ◌⊎◌, ◌≢◌, inl, inr}
use mathlib.Core.Bool.{Bool, true, false, ◌&&◌}
use mathlib.Core.List.{List, [], ◌∷◌, ◌++◌}
use mathlib.Core.Option.{Option, none, some}
use native.Mathlib.Omega.{arith}
use obsidian_syncserver.Prelude.Lists.{length, take, drop}
use obsidian_syncserver.Prelude.Tests.{Eq, ◌==◌, nat_beq, nat_eq, leb, if◌then◌else◌, Bool-cases}

abbrev pub Str : Type 0
Str = List ℕ

-- A literal of the source; its characters are all below U+FFFF.
abbrev pub codes : String → Str
codes (String.◌∷◌ letter letters) = code letter ∷ codes letters
codes String.[] = []

unfoldable pub str_beq : Str → Str → Bool
str_beq [] [] = true
str_beq [] (y ∷ ys) = false
str_beq (x ∷ xs) [] = false
str_beq (x ∷ xs) (y ∷ ys) = nat_beq x y && str_beq xs ys

pub str_beq_iff : (a b : Str) → (str_beq a b ≡ true) ↔ (a ≡ b)
unfolding str_beq
str_beq_iff [] [] = ground arith
str_beq_iff [] (y ∷ ys) = ground arith
str_beq_iff (x ∷ xs) [] = ground arith
str_beq_iff (x ∷ xs) (y ∷ ys) = ground (arith, str_beq_iff xs ys)

instance abbrev pub str_eq : Eq Str
str_eq = record { same = str_beq; same_iff = str_beq_iff }

-- `===` of two ids that may be null.
abbrev pub option_beq : Option Str → Option Str → Bool
option_beq none none = true
option_beq (some a) (some b) = str_beq a b
option_beq none (some b) = false
option_beq (some a) none = false

pub option_beq_iff : (a b : Option Str) → (option_beq a b ≡ true) ↔ (a ≡ b)
option_beq_iff none none = ground arith
option_beq_iff (some a) (some b) = ground (arith, str_beq_iff a b)
option_beq_iff none (some b) = ground arith
option_beq_iff (some a) none = ground arith

instance abbrev pub option_eq : Eq (Option Str)
option_eq = record { same = option_beq; same_iff = option_beq_iff }

-- `text.startsWith(prefix)`
unfoldable pub starts_with : Str → Str → Bool
starts_with t [] = true
starts_with [] (p ∷ ps) = false
starts_with (c ∷ t) (p ∷ ps) = nat_beq c p && starts_with t ps

-- `text.endsWith(suffix)`
unfoldable pub ends_with : Str → Str → Bool
unfolding str_beq
ends_with t s = leb (length s) (length t) && (drop (length t - length s) t == s)

-- `text.lastIndexOf(c)`, with `none` for -1
unfoldable pub last_index_of : ℕ → Str → Option ℕ
last_index_of c [] = none
last_index_of c (x ∷ xs) = elim (last_index_of c xs) [
  | some i ↦ some (suc i)
  | none ↦ if nat_beq x c then some 0 else none
]

abbrev pub cons_head : ℕ → List Str → List Str
cons_head x [] = (x ∷ []) ∷ []
cons_head x (w ∷ ws) = (x ∷ w) ∷ ws

-- `text.split(c)` for one code unit
unfoldable pub split : ℕ → Str → List Str
split c [] = [] ∷ []
split c (x ∷ xs) = let rest = split c xs in if nat_beq x c then [] ∷ rest else cons_head x rest

pub starts_with_iff : (t p : Str) → (starts_with t p ≡ true) ↔ (t ≡ p ++ drop (length p) t)
unfolding starts_with
starts_with_iff t [] = (λ h. refl, λ h. refl)
starts_with_iff [] (p ∷ ps) = (λ h. cc, λ h. cc)
starts_with_iff (c ∷ t) (p ∷ ps) = ground (arith, starts_with_iff t ps)

pub starts_with_append : (p r : Str) → starts_with (p ++ r) p ≡ true
unfolding starts_with
starts_with_append [] r = refl
starts_with_append (c ∷ p) r = ground (arith, starts_with_append p r)

pub drop-append : (p r : Str) → drop (length p) (p ++ r) ≡ r
drop-append [] r = refl
drop-append (c ∷ p) r = drop-append p r

pub take-append : (p r : Str) → take (length p) (p ++ r) ≡ p
take-append [] r = refl
take-append (c ∷ p) r = ap (λ (q : Str). c ∷ q) (take-append p r)

-- The last separator splits the text, and none stands behind it.
pub last_index_of-some :
    (c : ℕ) (t : Str) (i : ℕ)
    → last_index_of c t ≡ some i
    → (t ≡ take i t ++ (c ∷ drop (suc i) t)) × (last_index_of c (drop (suc i) t) ≡ none)
unfolding last_index_of
last_index_of-some c [] i h = cc
last_index_of-some c (x ∷ xs) zero h = ground arith
last_index_of-some c (x ∷ xs) (suc i) h = ground (arith, last_index_of-some c xs i)

pub last_index_of-lt : (c : ℕ) (t : Str) (i : ℕ) → last_index_of c t ≡ some i → i < length t
unfolding last_index_of
last_index_of-lt c [] i h = cc
last_index_of-lt c (x ∷ xs) zero h = ground arith
last_index_of-lt c (x ∷ xs) (suc i) h = ground (arith, last_index_of-lt c xs i)

pub last_index_of-append_none :
    (c : ℕ) (t b : Str)
    → last_index_of c b ≡ none
    → last_index_of c (t ++ (c ∷ b)) ≡ some (length t)
unfolding last_index_of
last_index_of-append_none c [] b h = ground arith
last_index_of-append_none c (x ∷ t) b h = ground (arith, last_index_of-append_none c t b)

-- To split on a comparison with what either answer means.
pub str_beq-cases :
    (a b : Str) → ((str_beq a b ≡ true) × (a ≡ b)) ⊎ ((str_beq a b ≡ false) × (a ≢ b))
str_beq-cases a b = elim (Bool-cases (str_beq a b)) [
  | inl t ↦ inl (t, (str_beq_iff a b).0 t)
  | inr f ↦ inr (f, λ e. cc (f, (str_beq_iff a b).1 e))
]

pub option_beq-cases :
    (a b : Option Str) → ((option_beq a b ≡ true) × (a ≡ b)) ⊎ ((option_beq a b ≡ false) × (a ≢ b))
option_beq-cases a b = elim (Bool-cases (option_beq a b)) [
  | inl t ↦ inl (t, (option_beq_iff a b).0 t)
  | inr f ↦ inr (f, λ e. cc (f, (option_beq_iff a b).1 e))
]

pub drop_past : (p r : Str) (c : ℕ) → drop (suc (length p)) (p ++ (c ∷ r)) ≡ r
drop_past [] r c = refl
drop_past (x ∷ p) r c = drop_past p r c

pub length-take_le : (i : ℕ) (t : Str) → length (take i t) ≤ i
length-take_le zero t = omega arith
length-take_le (suc i) [] = omega arith
length-take_le (suc i) (x ∷ t) = omega (arith, length-take_le i t)

pub ne_of_beq : (a b : Str) → str_beq a b ≡ false → a ≢ b
ne_of_beq a b f e = cc (f, (str_beq_iff a b).1 e)

-- The order of texts by their code units.
unfoldable pub text_leb : Str → Str → Bool
text_leb [] b = true
text_leb (x ∷ a) [] = false
text_leb (x ∷ a) (y ∷ b) = let rest = text_leb a b in if nat_beq x y then rest else leb x y
