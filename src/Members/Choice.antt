-- ===== src/Members/Choice.antt =====
-- One turn of the loops that choose a neighbour keeps the choice nearest.
use kv_storage_service.Common.{
  ◌≡◌, refl, ◌∙◌, ◌↔◌, ◌⊎◌, inl, inr, Option, none, some, List, [], ◌∷◌, Ordering, Bool, true,
  false, Bool-cases, is_pos, is_neg, arith,
}
use kv_storage_service.Text.{Str, cmp, strcmp}
use kv_storage_service.Text.Order.{cmp_refl, cmp-flip, eq_of_cmp, cmp_trans}
use kv_storage_service.Members.{closer_after, closer_before}

abbrev pub Before : Str → Str → Type 0
Before a b = cmp a b ≡ Ordering.lt

-- the two ways along the chain
abbrev pub After : Str → Str → Type 0
After a b = Before b a

abbrev pub IsIn : Str → List Str → Type 0
IsIn d [] = ⊥
IsIn d (c ∷ cs) = (d ≡ c) ⊎ IsIn d cs

-- Of the nodes P that R sets behind n, o is the nearest, or none if there is no such node.
abbrev pub Nearest : (Str → Str → Type 0) → Str → (Str → Type 0) → Option Str → Type 0
Nearest R n P none = (d : Str) → P d → ¬ R n d
Nearest R n P (some s) = P s × R n s × ((d : Str) → P d → R n d → ¬ R d s)

pub cmp-cases : (a b : Str) → Before a b ⊎ ((a ≡ b) ⊎ Before b a)
cmp-cases a b = split (cmp a b) refl
  where
    split : (o : Ordering) → cmp a b ≡ o → Before a b ⊎ ((a ≡ b) ⊎ Before b a)
    split Ordering.lt e = inl e
    split Ordering.eq e = inr (inl (eq_of_cmp a b e))
    split Ordering.gt e = inr (inr (cmp-flip a b ∙ rw e refl))

abbrev pub Or : Str → (Str → Type 0) → Str → Type 0
Or c P d = (d ≡ c) ⊎ P d

pub either :
    (c : Str) (P Q : Str → Type 0) → Q c → ((d : Str) → P d → Q d) → (d : Str) → Or c P d → Q d
either c P Q q f d (inl e) = rw e q
either c P Q q f d (inr p) = f d p

module _ (R : Str → Str → Type 0) (R_trans : (a b c : Str) → R a b → R b c → R a c)
    (R_irrefl : (a : Str) → ¬ R a a) (n c : Str) (P : Str → Type 0) where
  -- A node that R does not set behind n changes nothing, a first one is the nearest, and a later one
  -- is where it stands before the nearest so far.
  skip : (o : Option Str) → ¬ R n c → Nearest R n P o → Nearest R n (Or c P) o
  skip none far old = either c P (λ d. ¬ R n d) far old
  skip (some s) far (p, r, least) =
      (inr p, r, either c P (λ d. R n d → ¬ R d s) (λ r'. absurd (far r')) least)

  first : R n c → Nearest R n P none → Nearest R n (Or c P) (some c)
  first r old = (
    inl refl,
    r,
    either c P (λ d. R n d → ¬ R d c) (λ _. R_irrefl c) (λ d p r'. absurd (old d p r')),
  )

  closer : (s : Str) → R n c → R c s → Nearest R n P (some s) → Nearest R n (Or c P) (some c)
  closer s r cs (p, rs, least) = (
    inl refl,
    r,
    either c P (λ d. R n d → ¬ R d c) (λ _. R_irrefl c)
        (λ d q r' dc. least d q r' (R_trans d c s dc cs)),
  )

  keep : (s : Str) → ¬ R c s → Nearest R n P (some s) → Nearest R n (Or c P) (some s)
  keep s far (p, r, least) = (inr p, r, either c P (λ d. R n d → ¬ R d s) (λ _. far) least)

pub Before-irrefl : (a : Str) → ¬ Before a a
Before-irrefl a b = ground (arith, cmp_refl a)

pub After-trans : (a b c : Str) → After a b → After b c → After a c
After-trans a b c h k = cmp_trans c b a k h

pub is_neg-strcmp : (a b : Str) → (is_neg (strcmp a b) ≡ true) ↔ Before a b
is_neg-strcmp a b = ground arith

pub is_pos-strcmp : (a b : Str) → (is_pos (strcmp a b) ≡ true) ↔ After a b
is_pos-strcmp a b = rw (cmp-flip a b) (ground arith)

pub far_of_false : {b : Bool} {P : Type 0} → (b ≡ true) ↔ P → b ≡ false → ¬ P
far_of_false (f, g) e p = ground (arith, g p)

pub closer_after-Nearest :
    (n c : Str) (P : Str → Type 0) (o : Option Str)
    → Nearest Before n P o
    → Nearest Before n (Or c P) (closer_after n c o)
unfolding closer_after
closer_after-Nearest n c P none old = elim (Bool-cases (is_pos (strcmp c n))) [
  | inl b ↦ rw b (first Before cmp_trans Before-irrefl n c P ((is_pos-strcmp c n).0 b) old)
  | inr b ↦
      rw b (skip Before cmp_trans Before-irrefl n c P none (far_of_false (is_pos-strcmp c n) b) old)
]
closer_after-Nearest n c P (some s) old = elim (Bool-cases (is_pos (strcmp c n))) [
  | inl b ↦ elim (Bool-cases (is_neg (strcmp c s))) [
    | inl k ↦
        rw (b, k)
          (closer Before cmp_trans Before-irrefl n c P s ((is_pos-strcmp c n).0 b)
            ((is_neg-strcmp c s).0 k) old)
    | inr k ↦
        rw (b, k)
          (keep Before cmp_trans Before-irrefl n c P s (far_of_false (is_neg-strcmp c s) k) old)
  ]
  | inr b ↦
      rw b (
        skip Before cmp_trans Before-irrefl n c P (some s) (far_of_false (is_pos-strcmp c n) b) old)
]

pub closer_before-Nearest :
    (n c : Str) (P : Str → Type 0) (o : Option Str)
    → Nearest After n P o
    → Nearest After n (Or c P) (closer_before n c o)
unfolding closer_before
closer_before-Nearest n c P none old = elim (Bool-cases (is_neg (strcmp c n))) [
  | inl b ↦ rw b (first After After-trans Before-irrefl n c P ((is_neg-strcmp c n).0 b) old)
  | inr b ↦
      rw b
        (skip After After-trans Before-irrefl n c P none (far_of_false (is_neg-strcmp c n) b) old)
]
closer_before-Nearest n c P (some s) old = elim (Bool-cases (is_neg (strcmp c n))) [
  | inl b ↦ elim (Bool-cases (is_pos (strcmp c s))) [
    | inl k ↦
        rw (b, k)
          (closer After After-trans Before-irrefl n c P s ((is_neg-strcmp c n).0 b)
            ((is_pos-strcmp c s).0 k) old)
    | inr k ↦
        rw (b, k)
          (keep After After-trans Before-irrefl n c P s (far_of_false (is_pos-strcmp c s) k) old)
  ]
  | inr b ↦
      rw b (
        skip After After-trans Before-irrefl n c P (some s) (far_of_false (is_neg-strcmp c n) b)
          old)
]
