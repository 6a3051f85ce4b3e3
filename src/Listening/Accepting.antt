-- ===== src/Listening/Accepting.antt =====
-- What network_main_loop of source/server_network.c does with the connections.
use kv_storage_service.Common.{
  ℕ, suc, ◌+◌, ◌<◌, ◌≤◌, ◌≡◌, refl, Bool, true, Bool-cases, inl, inr, some, List, [], ◌∷◌, ℤ, pos,
  ◌+ℤ◌, length, arith,
}
use kv_storage_service.Machine.{Heap, malloc, answer, asked, int_max}
use kv_storage_service.Table.{Table}
use kv_storage_service.Listening.{ThreadParameters, Accepted, accept_loop, network_main_loop}

-- The connections are handed to threads, numbered from n on, or closed, each to exactly one of the
-- two and in their order.
pub data Shared {Sock : Type 0}
    : ℕ → List Sock → List (ThreadParameters Sock) → List Sock → Type 0 where
  over : {n : ℕ} → Shared n [] [] []
  threaded :
      {n : ℕ} {c : Sock} {cs : List Sock} {ts : List (ThreadParameters Sock)} {ds : List Sock}
      → Shared (suc n) cs ts ds
      → Shared n (c ∷ cs) ((record { connsockfd = c; thread_number = pos n }) ∷ ts) ds
  dropped :
      {n : ℕ} {c : Sock} {cs : List Sock} {ts : List (ThreadParameters Sock)} {ds : List Sock}
      → Shared n cs ts ds
      → Shared n (c ∷ cs) ts (c ∷ ds)

module _ {Sock : Type 0} (pthread_create : ℤ → Bool)
    (creates : (number : ℤ) → pthread_create number ≡ true) where
  accept_loop_lem :
      (n : ℕ) (connections : List Sock) (h : Heap)
      → n + length connections ≤ int_max
      → (a : Accepted Sock) × (h' : Heap) × (accept_loop pthread_create (pos n) connections h
          ≡ some (a, h'))
        × Shared n connections a.threads a.closed
  unfolding accept_loop malloc ◌+ℤ◌
  accept_loop_lem n [] h le = (record { threads = []; closed = [] }, h, refl, over)
  accept_loop_lem n (c ∷ cs) h le = elim (Bool-cases (answer h.answers)) [
    | inr refused ↦
        let (a, h', run, shared) = accept_loop_lem n cs (asked h) (omega arith) in
        (record a { closed = c ∷ a.closed }, h', ground (arith, refused, run), dropped shared)
    | inl granted ↦
        let (a, h', run, shared) = accept_loop_lem (suc n) cs (asked h) (omega arith) in
        (
          record a { threads = (record { connsockfd = c; thread_number = pos n }) ∷ a.threads },
          h',
          ground (arith, granted, creates (pos n), run),
          threaded shared,
        )
  ]

  -- Where each thread can be made and `accept` gives fewer than 2^31 - 1 connections before it fails,
  -- whatever malloc answers: on a table, `network_main_loop` ends with 0, and each connection has been
  -- handed to exactly one thread, with numbers that count from 1 in the order of the connections, or
  -- has been closed.
  pub network_main_loop-Shared :
      (connections : List Sock) (table : Table) (h : Heap)
      → length connections < int_max
      → (a : Accepted Sock) × (h' : Heap) × (network_main_loop pthread_create connections
            (some table)
            h
          ≡ some ((pos 0, a), h'))
        × Shared 1 connections a.threads a.closed
  unfolding network_main_loop
  network_main_loop-Shared connections table h lt =
      let (a, h', run, shared) = accept_loop_lem 1 connections h (omega arith) in
      (a, h', ground (arith, run), shared)
