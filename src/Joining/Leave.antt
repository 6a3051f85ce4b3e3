-- ===== src/Joining/Leave.antt =====
-- A server that leaves a chain: the watcher of source/server_hashtable.c in the server before it, and
-- the puts after that.
use kv_storage_service.Common.{
  ℕ, suc, ◌<◌, ◌≤◌, ◌≡◌, Option, none, some, List, ◌++◌, true, length, arith,
}
use kv_storage_service.Machine.{Heap, IsAmple, int_max, grown, released, malloc, free}
use kv_storage_service.Text.{Str}
use kv_storage_service.Block.{Bytes}
use kv_storage_service.Table.Hash.{IsPlain}
use kv_storage_service.Table.View.{Contents, update}
use kv_storage_service.Message.{op_put, ct_none}
use kv_storage_service.Skeleton.{Server, Outside, accept}
use kv_storage_service.Invoke.Shared.{put_message}
use kv_storage_service.Chain.{Chain, Fits, serve, Ready}
use kv_storage_service.Chain.Put.{serve-put}
use kv_storage_service.Address.{Rtable, Internet, chain_path}
use kv_storage_service.Address.Connect.{address_of, connected, Reaches}
use kv_storage_service.Members.{find_successor}
use kv_storage_service.Joining.{child_watcher}
use kv_storage_service.Joining.Successor.{IsNextMade, set_next_server-connected}

-- The server of a process with what is behind its next one.
abbrev pub in_chain : (n : ℕ) → Server (Rtable (Chain n)) → Option (Chain n) → Chain (suc n)
in_chain n p next = record { table = p.table; stats = p.stats; lock = p.lock; next_server = next }

module _ (n : ℕ) (clock : Outside) (internet : Internet (Chain n)) (zoo_get : Str → Option Str)
    (usable : ℕ → ℕ) (roomy : (n : ℕ) → n ≤ 16 → 24 ≤ usable n) where
  -- A server has left a chain. The server before it has a new successor, which it reaches at the
  -- address that this one has in ZooKeeper, with a host of at most 15 characters; both and all servers
  -- behind them have valid tables with the same contents, room for m + 1 more entries and operations,
  -- and no one inside their locks; an allocation of at most 16 bytes has room for 24, as on 64-bit
  -- Linux, and malloc refuses nothing. Then the call of the watcher for the change connects the server
  -- to its new successor, from whatever connection it had, and a put that it takes after that (of an
  -- ASCII key whose characters add up to an int and a value of 1 to 2^31 - 1 bytes, with a request
  -- and a reply of less than 64 KiB) succeeds and is stored by it and all servers behind it. An old
  -- connection has a host of at most 15 characters without a colon, a port of 16 bits and a socket.
  pub leave-put :
      (m : ℕ) (f : Contents) (node_id successor host : Str) (children : List Str) (port : ℕ)
      (p : Server (Rtable (Chain n))) (rest : Chain n) (k : Str) (v : Bytes) (h : Heap)
      → find_successor node_id children none ≡ some successor
      → zoo_get (chain_path ++ successor) ≡ some (address_of host port)
      → Reaches internet host port rest
      → IsNextMade p.next_server
      → Ready (suc m) (suc n) f clock (in_chain n p none)
      → Ready (suc m) n f clock rest
      → IsPlain k
      → 0 < length v
      → length v ≤ int_max
      → Fits clock (put_message k v)
      → Fits clock (accept (put_message k v) op_put ct_none)
      → IsAmple h
      → (h₁ : Heap) × (child_watcher internet zoo_get usable true true
            (some children)
            node_id
            p.next_server
            h
          ≡ some (some (connected host port rest), h₁))
        × (c : Chain (suc n)) × (h₂ : Heap) × (serve
              (suc n)
              clock
              (in_chain n p (some rest))
              (put_message k v)
              h₁
            ≡ some ((some (accept (put_message k v) op_put ct_none), c), h₂))
        × Ready m (suc n) (update f k (some v)) clock c
  unfolding child_watcher malloc free
  leave-put m f node_id successor host children port p rest k v h e g reaches made
        (bs, has, t, same, room, budget, idle, _) ready plain lt le asks answers full =
      let (h₁, run, full₁) =
        set_next_server-connected internet zoo_get usable roomy node_id successor host children port
          rest p.next_server (grown h 1 0) e g reaches made full in
      let (c, h₂, stored, after, _) =
        serve-put clock k v plain lt le asks answers m (suc n) f (in_chain n p (some rest))
          (released h₁ 1) (bs, has, t, same, room, budget, idle, ready) full₁ in
      (released h₁ 1, ground (arith, full, run), c, h₂, stored, after)
