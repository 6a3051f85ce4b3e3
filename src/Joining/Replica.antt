-- ===== src/Joining/Replica.antt =====
-- `set_antecessor` of source/server_hashtable.c, where the server before it is a server of a chain:
-- the request goes to the loop of `thread_client` of that server.
use kv_storage_service.Common.{
  ℕ, suc, ◌+◌, ◌*◌, ◌<◌, ◌≡◌, refl, sym, ◌∙◌, Option, none, some, List, [], ◌∷◌, ◌++◌, pos, All,
  length, arith,
}
use kv_storage_service.Machine.{
  Heap, M, pure, IsAmple, grown, released, deref, free, int_max, ◌>>=◌,
}
use kv_storage_service.Text.{Str}
use kv_storage_service.LinkedList.Items.{Items}
use kv_storage_service.LinkedList.Loops.{entry_destroy_lem}
use kv_storage_service.Table.View.{Buckets, table_of, bucket, view, total, IsTable}
use kv_storage_service.Table.Listing.{
  all_items, all_items-All, length-all_items, load-all_items, either_of,
}
use kv_storage_service.Message.{MessageT, op_gettable}
use kv_storage_service.Block.{Bytes}
use kv_storage_service.Stub.{
  plain_message, destroy_each, rtable_free_entries, rtable_get_table, exchange, accepted,
}
use kv_storage_service.Stub.Entries.{IsSized, entry_array, read_entries_lem}
use kv_storage_service.Skeleton.{Outside}
use kv_storage_service.Invoke.Shared.{IsCounting}
use kv_storage_service.Invoke.Listing.{table_reply, invoke_gettable_lem}
use kv_storage_service.Chain.{Chain, Fits, carried, serve}
use kv_storage_service.Address.{Rtable, Internet, chain_path}
use kv_storage_service.Address.Connect.{address_of, connected, Reaches, rtable_connect_lem}
use kv_storage_service.Members.{find_antecessor}
use kv_storage_service.Joining.{receive_table, fetch_table, set_antecessor}
use kv_storage_service.Joining.Successor.{get_node_data_lem, rtable_disconnect_lem}
use kv_storage_service.Joining.Transfer.{IsTaken, copy_entries_lem}

-- A request over the socket of a remote table, at the other end of which is a chain.
abbrev pub over :
    (n : ℕ) → Outside → Rtable (Chain n) → MessageT → M (Option MessageT × Rtable (Chain n))
over n clock r msg = do
  chain ← deref r.sockfd
  (reply, chain') ← serve n clock chain msg
  pure (reply, record r { sockfd = some chain' })

pub destroy_each_lem :
    (xs : Items) (h : Heap)
    → destroy_each (entry_array xs) h ≡ some (tt, released h (4 * length xs))
unfolding destroy_each
destroy_each_lem [] h = ground arith
destroy_each_lem (i ∷ xs) h =
    rw (entry_destroy_lem i h, ◌>>=◌) (ground (arith, destroy_each_lem xs (released h 4)))

-- What the server before sends: the entries of its table.
get_table_lem :
    (n : ℕ) (clock : Outside) (s : Chain (suc n)) (bs : Buckets) (host : Str) (port : ℕ) (h : Heap)
    → s.table ≡ some (table_of bs)
    → total bs < int_max
    → All IsSized (all_items bs)
    → IsCounting clock s.stats
    → Fits clock (plain_message op_gettable)
    → Fits clock (table_reply bs)
    → IsAmple h
    → (s' : Chain (suc n)) × (h' : Heap) × (rtable_get_table
          (over (suc n) clock)
          (some (connected host port s))
          h
        ≡ some ((some (entry_array (all_items bs)), some (connected host port s')), h'))
      × IsAmple h'
unfolding rtable_get_table exchange serve carried accepted plain_message
get_table_lem n clock s bs host port h e lt sized c asks answers full =
    let (s', h₁, run, _, _, _, _, full₁) =
      invoke_gettable_lem (serve n clock) clock s bs h e lt full c in
    let reply = table_reply bs in
    (
      s',
      grown (grown h₁ 1 0) (6 * length (all_items bs)) (2 * length (all_items bs)),
      ground (
        arith,
        run,
        read_entries_lem (all_items bs) reply h₁ refl (sym (length-all_items bs))
            (omega (arith, lt, length-all_items bs)) full₁ sized,
      ),
      full₁,
    )

All-imp :
    {P Q : Str × Bytes → Type 0} (xs : Items)
    → ((i : Str × Bytes) → P i → Q i)
    → All P xs
    → All Q xs
All-imp [] imp a = tt
All-imp (i ∷ xs) imp (p, a) = (imp i p, All-imp xs imp a)

-- The entries of a valid table can be put into another one.
all_items-IsTaken : (bs : Buckets) → IsTable bs → All IsTaken (all_items bs)
all_items-IsTaken bs t =
    all_items-All IsTaken bs
      (λ i. All-imp (bucket bs i) (λ e stored. (stored.plain, stored.filled)) (t.stored i))

module _ (n : ℕ) (clock : Outside) (internet : Internet (Chain (suc n)))
    (zoo_get : Str → Option Str) where
  -- A server that joins the chain behind one that it reaches, both with a valid table, takes over
  -- the contents of that one: `set_antecessor` returns 0, its table is valid, and under each key it
  -- has the value of the server before it, or its own where that one has none. The other server's
  -- statistics have room for one more operation, its values are at most 2^31 - 1 bytes, both
  -- tables together have fewer than 2^31 - 1 entries, and malloc refuses nothing.
  pub set_antecessor-replica :
      (node_id antecessor host : Str) (children : List Str) (port : ℕ) (s : Chain (suc n))
      (bs own : Buckets) (h : Heap)
      → find_antecessor node_id children none ≡ some antecessor
      → zoo_get (chain_path ++ antecessor) ≡ some (address_of host port)
      → Reaches internet host port s
      → s.table ≡ some (table_of bs)
      → IsTable bs
      → All IsSized (all_items bs)
      → IsCounting clock s.stats
      → Fits clock (plain_message op_gettable)
      → Fits clock (table_reply bs)
      → IsTable own
      → total own + total bs < int_max
      → IsAmple h
      → (after : Buckets) × (h' : Heap) × (set_antecessor internet zoo_get
            (over (suc n) clock)
            node_id
            children
            (some (table_of own))
            h
          ≡ some ((pos 0, some (table_of after)), h'))
        × IsTable after
        × ((q : Str) → view after q ≡ either_of (view bs q) (view own q))
        × IsAmple h'
  unfolding set_antecessor fetch_table receive_table rtable_free_entries free
  set_antecessor-replica node_id antecessor host children port s bs own h e f r has t sized c asks
        answers valid room full =
      let count = length (all_items bs) in
      let same : count ≡ total bs = length-all_items bs in
      let h₁ = grown (grown h 2 1) 2 0 in
      let (s', h₂, sent, full₂) =
        get_table_lem n clock s bs host port h₁ has (omega arith) sized c asks answers full in
      let (after, h₃, copied, valid', reads, _, full₃) =
        copy_entries_lem (all_items bs) own h₂ (all_items-IsTaken bs t) valid (omega (arith, same))
          full₂ in
      let h₄ = released (released h₃ (4 * count)) 1 in
      let (_, h₅, left, full₅) =
        rtable_disconnect_lem internet zoo_get (connected host port s') h₄
          (record {
            host = host;
            port = port;
            fd = s';
            address = refl;
            part = r.part;
            dotted = r.dotted;
            number = refl;
            port_lt = r.port_lt;
            opened = refl;
          })
          full₃ in
      (
        after,
        released h₅ 1,
        rw
            (
              e,
              set_antecessor,
              get_node_data_lem zoo_get antecessor (address_of host port) h f full,
              ◌>>=◌,
            )
            (rw (rtable_connect_lem internet host port s (grown h 2 1) r full, ◌>>=◌)
              (rw (sent, ◌>>=◌)
                (rw (copied, ◌>>=◌)
                  (rw (destroy_each_lem (all_items bs) h₃, ◌>>=◌) (rw (left, ◌>>=◌) refl))))),
        valid',
        λ q. reads q ∙ load-all_items bs (view own) q t,
        full₅,
      )
