-- ===== src/Members/Neighbours.antt =====
-- The neighbours that the servers choose link all nodes to one chain.
use kv_storage_service.Common.{◌≡◌, refl, ◌↔◌, ◌⊎◌, inl, inr, Option, none, some, List, [], ◌∷◌}
use mathlib.Core.Path.{subst}
use kv_storage_service.Text.{Str}
use kv_storage_service.Members.{closer_after, find_successor, closer_before, find_antecessor}
use kv_storage_service.Members.Choice.{
  Before, After, IsIn, Nearest, cmp-cases, closer_after-Nearest, closer_before-Nearest,
}

Nearest-map :
    (R : Str → Str → Type 0) (n : Str) (P Q : Str → Type 0)
    → ((d : Str) → P d → Q d)
    → ((d : Str) → Q d → P d)
    → (o : Option Str) → Nearest R n P o
    → Nearest R n Q o
Nearest-map R n P Q f g none old = λ d q. old d (g d q)
Nearest-map R n P Q f g (some s) (p, r, least) = (f s p, r, λ d q. least d (g d q))

-- What is still to come and what has been seen, with one node moved from the one to the other.
pub shift :
    (P : Str → Type 0) (c : Str) (cs : List Str) (d : Str)
    → (IsIn d cs ⊎ ((d ≡ c) ⊎ P d)) ↔ (IsIn d (c ∷ cs) ⊎ P d)
shift P c cs d = (
  elim [ inl i ↦ inl (inr i) | inr (inl e) ↦ inl (inl e) | inr (inr p) ↦ inr p ],
  elim [ inl (inl e) ↦ inr (inl e) | inl (inr i) ↦ inl i | inr p ↦ inr (inr p) ],
)

find_successor_lem :
    (n : Str) (cs : List Str) (P : Str → Type 0) (o : Option Str)
    → Nearest Before n P o
    → Nearest Before n (λ d. IsIn d cs ⊎ P d) (find_successor n cs o)
unfolding find_successor
find_successor_lem n [] P o old =
    Nearest-map Before n P _ (λ d. inr) (λ d. elim [ inl i ↦ absurd i | inr p ↦ p ]) o old
find_successor_lem n (c ∷ cs) P o old =
    Nearest-map Before n _ _ (λ d. (shift P c cs d).0) (λ d. (shift P c cs d).1)
      (find_successor n cs (closer_after n c o))
      (find_successor_lem n cs (λ d. (d ≡ c) ⊎ P d) (closer_after n c o)
        (closer_after-Nearest n c P o old))

find_antecessor_lem :
    (n : Str) (cs : List Str) (P : Str → Type 0) (o : Option Str)
    → Nearest After n P o
    → Nearest After n (λ d. IsIn d cs ⊎ P d) (find_antecessor n cs o)
unfolding find_antecessor
find_antecessor_lem n [] P o old =
    Nearest-map After n P _ (λ d. inr) (λ d. elim [ inl i ↦ absurd i | inr p ↦ p ]) o old
find_antecessor_lem n (c ∷ cs) P o old =
    Nearest-map After n _ _ (λ d. (shift P c cs d).0) (λ d. (shift P c cs d).1)
      (find_antecessor n cs (closer_before n c o))
      (find_antecessor_lem n cs (λ d. (d ≡ c) ⊎ P d) (closer_before n c o)
        (closer_before-Nearest n c P o old))

-- `set_next_server` chooses the least of the nodes that stand after the server, and none where none
-- does.
pub find_successor-Nearest :
    (n : Str) (cs : List Str) → Nearest Before n (λ d. IsIn d cs) (find_successor n cs none)
find_successor-Nearest n cs =
    Nearest-map Before n _ _ (λ d. elim [ inl i ↦ i | inr e ↦ absurd e ]) (λ d. inl)
      (find_successor n cs none) (find_successor_lem n cs (λ _. ⊥) none (λ d e. absurd e))

-- `set_antecessor` chooses the greatest of the nodes that stand before the server, and none where
-- none does.
pub find_antecessor-Nearest :
    (n : Str) (cs : List Str) → Nearest After n (λ d. IsIn d cs) (find_antecessor n cs none)
find_antecessor-Nearest n cs =
    Nearest-map After n _ _ (λ d. elim [ inl i ↦ i | inr e ↦ absurd e ]) (λ d. inl)
      (find_antecessor n cs none) (find_antecessor_lem n cs (λ _. ⊥) none (λ d e. absurd e))

After-cases : (a b : Str) → After a b ⊎ ((a ≡ b) ⊎ After b a)
After-cases a b = elim (cmp-cases a b) [
  | inl l ↦ inr (inr l)
  | inr (inl e) ↦ inr (inl e)
  | inr (inr g) ↦ inl g
]

-- Nothing else is nearest.
Nearest_unique :
    (R : Str → Str → Type 0) (n t : Str) (P : Str → Type 0) (o : Option Str)
    → ((a b : Str) → R a b ⊎ ((a ≡ b) ⊎ R b a))
    → Nearest R n P o
    → Nearest R n P (some t)
    → o ≡ some t
Nearest_unique R n t P none total old (p, r, least) = absurd (old t p r)
Nearest_unique R n t P (some s) total (q, rs, first) (p, r, least) = elim (total s t) [
  | inl st ↦ absurd (least s q rs st)
  | inr (inl e) ↦ rw e refl
  | inr (inr ts) ↦ absurd (first t p r ts)
]

-- Being nearest behind n is having n nearest before, among nodes that n is one of.
turn :
    (R : Str → Str → Type 0) (n s : Str) (P : Str → Type 0)
    → P n
    → Nearest R n P (some s)
    → Nearest (λ a b. R b a) s P (some n)
turn R n s P p (q, r, least) = (p, r, λ d i ds nd. least d i nd ds)

-- For two nodes of the chain, the one takes the other for its successor exactly where the other
-- takes it for its predecessor: the links that the servers choose on their own fit together.
pub successor_iff :
    (cs : List Str) (n s : Str)
    → IsIn n cs
    → IsIn s cs
    → (find_successor n cs none ≡ some s) ↔ (find_antecessor s cs none ≡ some n)
successor_iff cs n s i j = (
  λ e.
      Nearest_unique After s n (λ d. IsIn d cs) _ After-cases (find_antecessor-Nearest s cs)
        (turn Before n s _ i
          (subst (Nearest Before n (λ d. IsIn d cs)) e (find_successor-Nearest n cs))),
  λ e.
      Nearest_unique Before n s (λ d. IsIn d cs) _ cmp-cases (find_successor-Nearest n cs)
        (turn After s n _ j
          (subst (Nearest After s (λ d. IsIn d cs)) e (find_antecessor-Nearest s cs))),
)
