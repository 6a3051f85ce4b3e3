-- ===== src/Joining/Window.antt =====
-- A put that reaches the last server of a chain while another one starts behind it: `main` of
-- source/server_hashtable.c has copied the table, and the watcher of the server before it has not
-- connected yet.
use kv_storage_service.Common.{
  ℕ, suc, ◌<◌, ◌≤◌, ◌≡◌, refl, Option, none, some, List, ◌++◌, All, pos, length, arith,
}
use kv_storage_service.Machine.{Heap, IsAmple, int_max}
use kv_storage_service.Text.{Str}
use kv_storage_service.Block.{Bytes}
use kv_storage_service.Stats.{Stats}
use kv_storage_service.Table.Hash.{IsPlain}
use kv_storage_service.Table.View.{Buckets, table_of, view, total, IsTable}
use kv_storage_service.Table.Listing.{all_items}
use kv_storage_service.Message.{op_put, ct_none}
use kv_storage_service.Stub.Entries.{IsSized}
use kv_storage_service.Skeleton.{Server, Outside, accept}
use kv_storage_service.Invoke.Shared.{IsCounting, put_message}
use kv_storage_service.Invoke.Get.{get_message, get_reply, invoke_get_lem}
use kv_storage_service.Stub.{plain_message}
use kv_storage_service.Message.{op_gettable}
use kv_storage_service.Invoke.Listing.{table_reply}
use kv_storage_service.Chain.{Chain, Fits, carried, serve, serve_last, Ready}
use kv_storage_service.Chain.Put.{serve-put}
use kv_storage_service.Address.{Rtable, Internet, chain_path}
use kv_storage_service.Address.Connect.{address_of, Reaches}
use kv_storage_service.Members.{find_successor, find_antecessor}
use kv_storage_service.Joining.{start_server}
use kv_storage_service.Joining.Replica.{over}
use kv_storage_service.Joining.Start.{start_server-replica}

-- A server p that is connected to the server t behind it, which is the last one.
abbrev pub before : (n : ℕ) {Net : Type 0} → Chain (suc n) → Server Net → Chain (suc (suc n))
before n p t = record {
  table = p.table;
  stats = p.stats;
  lock = p.lock;
  next_server =
      some (record { table = t.table; stats = t.stats; lock = t.lock; next_server = none });
}

-- The counters of a new server have room for an operation that another server's have room for.
fresh-IsCounting :
    {clock : Outside} {stats : Option Stats}
    → IsCounting clock stats
    → IsCounting clock
        (some (record { n_operations = pos 0; total_time = pos 0; n_clients = pos 0 }))
fresh-IsCounting c = record {
  operations = 0;
  time = 0;
  clients = pos 0;
  there = refl;
  operations_lt = omega arith;
  taken = c.taken;
  taken_eq = c.taken_eq;
  time_fits = omega (arith, c.time_fits);
}

module _ (n : ℕ) (clock : Outside) (internet : Internet (Chain (suc n)))
    (zoo_get : Str → Option Str) (usable : ℕ → ℕ) where
  -- A server starts behind the last one of a chain, as in start_server-replica, and before that one is
  -- connected to it, that one, with the table that was copied, takes a put of an ASCII key whose
  -- characters add up to an int and of a value of 1 to 2^31 - 1 bytes. The put is answered by success;
  -- when the two servers are connected, a get at the new last server answers what the key had before
  -- the put. The table is valid and has room for m + 1 more entries and operations, no one is inside
  -- the lock, the messages have less than 64 KiB each, and malloc refuses nothing.
  pub put_lost :
      (n_lists : ℕ) (node_id antecessor host : Str) (children : List Str) (port m : ℕ)
      (s p : Chain (suc n)) (bs : Buckets) (k : Str) (v : Bytes) (h : Heap)
      → 0 < n_lists
      → find_successor node_id children none ≡ none
      → find_antecessor node_id children none ≡ some antecessor
      → zoo_get (chain_path ++ antecessor) ≡ some (address_of host port)
      → Reaches internet host port s
      → s.table ≡ some (table_of bs)
      → IsTable bs
      → All IsSized (all_items bs)
      → IsCounting clock s.stats
      → Fits clock (plain_message op_gettable)
      → Fits clock (table_reply bs)
      → total bs < int_max
      → p.table ≡ s.table
      → p.next_server ≡ none
      → Ready (suc m) (suc n) (view bs) clock p
      → IsPlain k
      → 0 < length v
      → length v ≤ int_max
      → Fits clock (put_message k v)
      → Fits clock (accept (put_message k v) op_put ct_none)
      → Fits clock (get_message k)
      → Fits clock (get_reply (get_message k) (view bs k))
      → IsAmple h
      → (t : Server (Rtable (Chain (suc n)))) × (h₁ : Heap) × (p' : Chain (suc n)) × (h₂ : Heap)
        × (c : Chain (suc (suc n))) × (h₃ : Heap) × (start_server internet zoo_get
              (over (suc n) clock)
              usable
              (pos n_lists)
              node_id
              children
              h
            ≡ some (t, h₁))
        × (serve (suc n) clock p (put_message k v) h₁
            ≡ some ((some (accept (put_message k v) op_put ct_none), p'), h₂))
        × (serve_last (suc (suc n)) clock (before n p' t) (get_message k) h₂
            ≡ some ((some (get_reply (get_message k) (view bs k)), c), h₃))
  unfolding serve_last serve carried
  put_lost n_lists node_id antecessor host children port m s p bs k v h lt last e f r has valid
        sized counting copies copied room still alone ready plain filled small asks answers gets got
        full =
      let (after, h₁, started, valid', same, full₁) =
        start_server-replica n clock internet zoo_get usable n_lists node_id antecessor host
          children port s bs h lt last e f r has valid sized counting copies copied room full in
      let (p', h₂, stored, _, full₂) =
        serve-put clock k v plain filled small asks answers m (suc n) (view bs) p h₁ ready full₁ in
      let t : Server (Rtable (Chain (suc n))) = record {
        table = some (table_of after);
        stats = some (record { n_operations = pos 0; total_time = pos 0; n_clients = pos 0 });
        lock = record { n_readers = pos 0; n_writers = pos 0 };
        next_server = none;
      } in
      let t' : Chain (suc n) = record {
        table = t.table;
        stats = t.stats;
        lock = t.lock;
        next_server = none;
      } in
      let (c, h₃, answered, _, _, _, _, _) =
        invoke_get_lem (serve n clock) clock t' after k h₂ refl valid' plain full₂
          (fresh-IsCounting counting) in
      (
        t,
        h₁,
        p',
        h₂,
        record { table = p'.table; stats = p'.stats; lock = p'.lock; next_server = some c },
        h₃,
        started,
        stored,
        ground (arith, answered, same k),
      )
