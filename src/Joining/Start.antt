-- ===== src/Joining/Start.antt =====
-- A server that starts behind the last one of a chain.
use kv_storage_service.Common.{
  ℕ, suc, ◌<◌, ◌≡◌, refl, ◌∙◌, Option, none, some, List, ◌++◌, All, pos, arith,
}
use kv_storage_service.Machine.{Heap, IsAmple, grown, int_max, malloc}
use kv_storage_service.Text.{Str}
use kv_storage_service.Stats.{stats_create}
use kv_storage_service.Table.Create.{empty_slots, total-empty_slots, table_create_lem}
use kv_storage_service.Table.View.{Buckets, table_of, view, total, IsTable}
use kv_storage_service.Table.Listing.{all_items, either_of}
use kv_storage_service.Stub.Entries.{IsSized}
use kv_storage_service.Skeleton.{Outside, server_skeleton_init}
use kv_storage_service.Invoke.Shared.{IsCounting}
use kv_storage_service.Stub.{plain_message}
use kv_storage_service.Message.{op_gettable}
use kv_storage_service.Invoke.Listing.{table_reply}
use kv_storage_service.Chain.{Chain, Fits}
use kv_storage_service.Address.{Internet, chain_path}
use kv_storage_service.Address.Connect.{address_of, Reaches}
use kv_storage_service.Members.{find_successor, find_antecessor}
use kv_storage_service.Joining.{set_next_server, start_server}
use kv_storage_service.Joining.Replica.{over, set_antecessor-replica}

pub either_of-empty {ℓ} : {A : Type ℓ} (o e : Option A) → e ≡ none → either_of o e ≡ o
either_of-empty none e is_none = is_none
either_of-empty (some a) e is_none = refl

module _ (n : ℕ) (clock : Outside) (internet : Internet (Chain (suc n)))
    (zoo_get : Str → Option Str) (usable : ℕ → ℕ) where
  -- A server that starts with 1 to 2^31 - 1 lists, without a successor and behind one that it
  -- reaches, and whose table is valid: it has a valid table of its own with the same contents,
  -- counters and a lock at 0, and no next server. The other server's statistics have room for one
  -- more operation, its table has less than 2^31 - 1 entries, of at most 2^31 - 1 bytes, that
  -- make a message of less than 64 KiB, as the request does; and malloc refuses nothing.
  pub start_server-replica :
      (n_lists : ℕ) (node_id antecessor host : Str) (children : List Str) (port : ℕ)
      (s : Chain (suc n)) (bs : Buckets) (h : Heap)
      → 0 < n_lists
      → find_successor node_id children none ≡ none
      → find_antecessor node_id children none ≡ some antecessor
      → zoo_get (chain_path ++ antecessor) ≡ some (address_of host port)
      → Reaches internet host port s
      → s.table ≡ some (table_of bs)
      → IsTable bs
      → All IsSized (all_items bs)
      → IsCounting clock s.stats
      → Fits clock (plain_message op_gettable)
      → Fits clock (table_reply bs)
      → total bs < int_max
      → IsAmple h
      → (after : Buckets) × (h' : Heap) × (start_server internet zoo_get
            (over (suc n) clock)
            usable
            (pos n_lists)
            node_id
            children
            h
          ≡ some (
            record {
              table = some (table_of after);
              stats = some (record { n_operations = pos 0; total_time = pos 0; n_clients = pos 0 });
              lock = record { n_readers = pos 0; n_writers = pos 0 };
              next_server = none;
            },
            h',
          ))
        × IsTable after
        × ((q : Str) → view after q ≡ view bs q)
        × IsAmple h'
  unfolding start_server server_skeleton_init stats_create malloc set_next_server
  start_server-replica n_lists node_id antecessor host children port s bs h lt last e f r has t
        sized c asks answers room full =
      let (made, valid, empty) = table_create_lem n_lists (grown h 1 0) lt full in
      let (after, h', run, valid', reads, full') =
        set_antecessor-replica n clock internet zoo_get node_id antecessor host children port s bs
          (empty_slots n_lists) (grown h 3 0) e f r has t sized c asks answers valid
          (omega (arith, room, total-empty_slots n_lists)) full in
      (
        after,
        h',
        ground (arith, full, made, last, run),
        valid',
        λ q. reads q ∙ either_of-empty (view bs q) (view (empty_slots n_lists) q) (empty q),
        full',
      )
