-- ===== src/Members/Ends.antt =====
-- The ends that a client chooses are the ends of the chain that the servers make.
use kv_storage_service.Common.{
  ◌≡◌, refl, ◌⊎◌, ◌↔◌, inl, inr, Option, none, some, List, [], ◌∷◌, if◌then◌else◌, Bool-cases,
  is_pos, is_neg,
}
use kv_storage_service.Text.{Str, strcmp}
use kv_storage_service.Text.Order.{cmp_trans}
use kv_storage_service.Members.{find_successor, find_antecessor, find_ends, choose_ends}
use kv_storage_service.Members.Choice.{
  Before, After, After-trans, IsIn, Nearest, Before-irrefl, Or, either, is_neg-strcmp,
  is_pos-strcmp, far_of_false,
}
use kv_storage_service.Members.Neighbours.{shift, find_successor-Nearest, find_antecessor-Nearest}

-- m is one of the nodes P, and R sets none of them behind it.
abbrev Last : (Str → Str → Type 0) → (Str → Type 0) → Str → Type 0
Last R P m = P m × ((d : Str) → P d → ¬ R m d)

module _ (R : Str → Str → Type 0) (R_trans : (a b c : Str) → R a b → R b c → R a c)
    (R_irrefl : (a : Str) → ¬ R a a) (c m : Str) (P : Str → Type 0) where
  later_of : R m c → Last R P m → Last R (Or c P) c
  later_of r (p, old) =
      (inl refl, either c P (λ d. ¬ R c d) (R_irrefl c) (λ d q r'. old d q (R_trans m c d r r')))

  still : ¬ R m c → Last R P m → Last R (Or c P) m
  still far (p, old) = (inr p, either c P (λ d. ¬ R m d) far old)

Last-greatest :
    (c m : Str) (P : Str → Type 0)
    → Last Before P m
    → Last Before (Or c P) (if is_pos (strcmp c m) then c else m)
Last-greatest c m P old = elim (Bool-cases (is_pos (strcmp c m))) [
  | inl b ↦ rw b (later_of Before cmp_trans Before-irrefl c m P ((is_pos-strcmp c m).0 b) old)
  | inr b ↦
      rw b (still Before cmp_trans Before-irrefl c m P (far_of_false (is_pos-strcmp c m) b) old)
]

Last-least :
    (c m : Str) (P : Str → Type 0)
    → Last After P m
    → Last After (Or c P) (if is_neg (strcmp c m) then c else m)
Last-least c m P old = elim (Bool-cases (is_neg (strcmp c m))) [
  | inl b ↦ rw b (later_of After After-trans Before-irrefl c m P ((is_neg-strcmp c m).0 b) old)
  | inr b ↦
      rw b (still After After-trans Before-irrefl c m P (far_of_false (is_neg-strcmp c m) b) old)
]

-- The nodes of a list behind those that have been seen.
abbrev Joined : List Str → (Str → Type 0) → Str → Type 0
Joined cs P d = IsIn d cs ⊎ P d

Last-map :
    (R : Str → Str → Type 0) (m : Str) (P Q : Str → Type 0)
    → ((d : Str) → P d → Q d)
    → ((d : Str) → Q d → P d)
    → Last R P m
    → Last R Q m
Last-map R m P Q f g (p, old) = (f m p, λ d q. old d (g d q))

find_ends_lem :
    (cs : List Str) (P : Str → Type 0) (m l : Str)
    → Last Before P m
    → Last After P l
    → Last Before (Joined cs P) (find_ends cs m l).0 × Last After (Joined cs P) (find_ends cs m l).1
unfolding find_ends
find_ends_lem [] P m l a b = (
  Last-map Before m P _ (λ d. inr) (λ d. elim [ inl i ↦ absurd i | inr p ↦ p ]) a,
  Last-map After l P _ (λ d. inr) (λ d. elim [ inl i ↦ absurd i | inr p ↦ p ]) b,
)
find_ends_lem (c ∷ cs) P m l a b =
    let (g, k) = find_ends_lem cs (Or c P) _ _ (Last-greatest c m P a) (Last-least c l P b) in
    (
      Last-map Before _ _ _ (λ d. (shift P c cs d).0) (λ d. (shift P c cs d).1) g,
      Last-map After _ _ _ (λ d. (shift P c cs d).0) (λ d. (shift P c cs d).1) k,
    )

-- At the start the first node is all that has been seen.
alone : (R : Str → Str → Type 0) (c : Str) → ((a : Str) → ¬ R a a) → Last R (λ d. d ≡ c) c
alone R c R_irrefl = (refl, λ d e. rw e (R_irrefl c))

opened : (c : Str) (cs : List Str) (d : Str) → (IsIn d cs ⊎ (d ≡ c)) ↔ IsIn d (c ∷ cs)
opened c cs d = (elim [ inl i ↦ inr i | inr e ↦ inl e ], elim [ inl e ↦ inr e | inr i ↦ inl i ])

Last-Nearest :
    (R : Str → Str → Type 0) (m : Str) (P : Str → Type 0) (o : Option Str)
    → Nearest R m P o
    → Last R P m
    → o ≡ none
Last-Nearest R m P none old l = refl
Last-Nearest R m P (some s) (p, r, least) (q, none_behind) = absurd (none_behind s p r)

-- Of a chain with at least one node, `set_head_tail` chooses two nodes of it: as `max` the one
-- that takes none for its successor, and as `min` the one that takes none for its predecessor.
pub choose_ends_lem :
    (first : Str) (rest : List Str)
    → (greatest : Str) × (least : Str) × (choose_ends (first ∷ rest) ≡ some (greatest, least))
      × IsIn greatest (first ∷ rest)
      × IsIn least (first ∷ rest)
      × (find_successor greatest (first ∷ rest) none ≡ none)
      × (find_antecessor least (first ∷ rest) none ≡ none)
unfolding choose_ends
choose_ends_lem first rest =
    let (g, k) =
      find_ends_lem rest (λ d. d ≡ first) first first (alone Before first Before-irrefl)
        (alone After first Before-irrefl) in
    let top =
      Last-map Before _ _ _ (λ d. (opened first rest d).0) (λ d. (opened first rest d).1) g in
    let low =
      Last-map After _ _ _ (λ d. (opened first rest d).0) (λ d. (opened first rest d).1) k in
    (
      (find_ends rest first first).0,
      (find_ends rest first first).1,
      refl,
      top.0,
      low.0,
      Last-Nearest Before _ _ _ (find_successor-Nearest _ (first ∷ rest)) top,
      Last-Nearest After _ _ _ (find_antecessor-Nearest _ (first ∷ rest)) low,
    )
