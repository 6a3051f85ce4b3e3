-- ===== src/Tests/Wires.antt =====
-- A client that asks for the size, and the server that answers.
use kv_storage_service.Common.{
  true, ℕ, ◌≡◌, refl, ◌==◌, Option, none, some, List, [], ◌∷◌, pos, ◌+ℤ◌, ◌-ℤ◌, ◌*ℤ◌, if◌then◌else◌,
  arith,
}
use kv_storage_service.Machine.{malloc, free, grown}
use kv_storage_service.Table.View.{total}
use kv_storage_service.Message.{MessageT, op_size}
use kv_storage_service.Stub.{plain_message}
use kv_storage_service.Invoke.{read_done, reading}
use kv_storage_service.Invoke.Shared.{IsCounting, counted}
use kv_storage_service.Invoke.Keys.{size_reply, invoke_size_lem}
use kv_storage_service.Exchange.{network_send_receive}
use kv_storage_service.Framing.Reliable.{network_receive-network_send}
use kv_storage_service.Serving.{client_turn, answer_message, replied}
use kv_storage_service.Framing.{network_receive, got_all, unpacked, network_send, sent_all}
use kv_storage_service.Transfer.{read_all, read_rest, read_turn, write_all, write_rest, write_turn}
use kv_storage_service.Invoke.{invoke, dispatch, invoke_size, count_operation}
use kv_storage_service.Table.{table_size, sum_sizes}
use kv_storage_service.LinkedList.{list_size}
use kv_storage_service.Skeleton.{interval}
use kv_storage_service.Stats.{update_operations}
use kv_storage_service.Serving.Wire.{exchange_lem}
use kv_storage_service.Chain.{Chain, serve}
use kv_storage_service.Tests.Chains.{clock, last}
use kv_storage_service.Tests.Frames.{pack_opcode}
use kv_storage_service.Tests.Turns.{
  taken_eq, Duplex, say, hear, say-Wrote, hear-Got, say-Takes, hear-Gives,
}
use kv_storage_service.Tests.Tables.{fresh, one_entry, one_entry-room}

-- a serialisation of the request and the reply
abbrev unpack_size : List ℕ → Option MessageT
unpack_size (c ∷ []) = if c == 40 then some (plain_message op_size) else some (size_reply 1)
unpack_size _ = none

abbrev last_counting : IsCounting clock last.stats
last_counting = record {
  operations = 4;
  time = 1000;
  clients = pos 1;
  there = refl;
  operations_lt = omega arith;
  taken = 100100;
  taken_eq = taken_eq;
  time_fits = omega arith;
}

abbrev left : Chain 1
left = record (read_done (reading last)) { stats = some (counted last_counting) }

abbrev client_end : Duplex
client_end = record { coming = 0 ∷ 1 ∷ 41 ∷ []; gone = [] }

abbrev server_end : Duplex
server_end = record { coming = 0 ∷ 1 ∷ 40 ∷ []; gone = [] }

abbrev after_turn : Duplex
after_turn = record { coming = []; gone = 0 ∷ 1 ∷ 41 ∷ [] }

size_turn :
    client_turn
      (λ w. w)
      say
      pack_opcode
      hear
      unpack_size
      (serve 0 clock)
      9
      clock
      server_end
      last
      fresh
    ≡ some (some (true, after_turn, left), record { answers = []; allocs = 2; frees = 2 })
unfolding client_turn answer_message replied network_receive got_all unpacked network_send sent_all
    read_all read_rest read_turn write_all write_rest write_turn malloc free invoke dispatch
    invoke_size table_size sum_sizes list_size plain_message total count_operation interval
    update_operations ◌+ℤ◌ ◌-ℤ◌ ◌*ℤ◌
size_turn = refl

exchange_example :
    (true ≡ true)
    × (left ≡ left)
    × ((t : Duplex) × (network_send_receive
            (λ w. w)
            hear
            unpack_size
            say
            pack_opcode
            9
            (some (plain_message op_size))
            client_end
            fresh
          ≡ some (some (some (size_reply 1), t), grown fresh 2 2))
        × (t.coming ≡ []))
unfolding plain_message total
exchange_example =
    exchange_lem (λ w. w) (λ _. 0) 0 (λ s. omega arith) (λ w. w.gone) (λ w. w.coming) say hear
      say-Wrote hear-Got say-Takes hear-Gives (λ s. refl) (λ s. refl) (λ s buf. refl)
      (λ s len. refl) pack_opcode unpack_size (serve 0 clock) 9 clock (plain_message op_size)
      (size_reply 1) client_end server_end after_turn last left (λ c. c ≡ left) true fresh fresh
      (record { answers = []; allocs = 2; frees = 2 }) refl refl (omega arith) (omega arith)
      (omega arith) refl refl refl
      (λ h full. (
        left,
        h,
        invoke_size_lem (serve 0 clock) clock last one_entry h refl one_entry-room last_counting,
        refl,
        full,
      ))
      size_turn refl

abbrev idle : Duplex
idle = record { coming = []; gone = 7 ∷ [] }

abbrev sent_size : Duplex
sent_size = record { coming = []; gone = 7 ∷ 0 ∷ 1 ∷ 40 ∷ [] }

-- what comes at the other end, behind a byte that was sent and read before
abbrev size_arrives : Duplex
size_arrives = record { coming = 0 ∷ 1 ∷ 40 ∷ 5 ∷ []; gone = [] }

size_sent :
    network_send (λ w. w) say pack_opcode 9 (some (plain_message op_size)) idle fresh
    ≡ some (some (pos 0, sent_size), record { answers = []; allocs = 1; frees = 1 })
unfolding network_send sent_all write_all write_rest write_turn malloc free plain_message
size_sent = refl

network_receive_example :
    (pos 0 ≡ pos 0)
    × ((v : Duplex) × (network_receive (λ w. w) hear unpack_size 9 size_arrives fresh
          ≡ some (some (some (plain_message op_size), v), grown fresh 1 1))
        × (v.coming ≡ 5 ∷ []))
unfolding plain_message total
network_receive_example =
    network_receive-network_send (λ w. w) (λ _. 0) 0 (λ s. omega arith) (λ w. w.gone)
      (λ w. w.coming) say hear say-Wrote hear-Got say-Takes hear-Gives pack_opcode unpack_size 9
      (plain_message op_size) (5 ∷ []) idle sent_size size_arrives (pos 0) fresh
      (record { answers = []; allocs = 1; frees = 1 }) fresh refl (omega arith) (omega arith) refl
      refl size_sent refl
