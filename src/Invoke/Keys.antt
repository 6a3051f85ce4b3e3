-- ===== src/Invoke/Keys.antt =====
-- OP_SIZE and OP_GETKEYS of source/server_skeleton.c.
use kv_storage_service.Common.{ℕ, ◌+◌, ◌<◌, ◌≡◌, Option, none, some, [], ◌∷◌, ◌++◌, pos, map, arith}
use kv_storage_service.Machine.{Heap, M, IsAmple, grown, int_max}
use kv_storage_service.Table.View.{Buckets, table_of, total}
use kv_storage_service.Table.Walk.{all_keys, temporaries, table_size_lem}
use kv_storage_service.Table.Keys.{table_get_keys_lem}
use kv_storage_service.Message.{MessageT, op_size, ct_result, op_getkeys, ct_keys}
use kv_storage_service.Stub.{plain_message}
use kv_storage_service.Skeleton.{Server, Outside, accept}
use kv_storage_service.Invoke.{invoke_size, invoke_getkeys, read_done, reading, dispatch, invoke}
use kv_storage_service.Invoke.Shared.{IsCounting, counted, count_operation_lem}

-- the reply with n keys
abbrev pub size_reply : ℕ → MessageT
size_reply n = record (accept (plain_message op_size) op_size ct_result) { result = pos n }

abbrev pub keys_reply : Buckets → MessageT
keys_reply bs = record (accept (plain_message op_getkeys) op_getkeys ct_keys) {
  keys = some (map some (all_keys bs) ++ none ∷ []);
  n_keys = total bs;
}

module _ {Net : Type 0} (network_send_receive : Net → MessageT → M (Option MessageT × Net))
    (clock : Outside) (s : Server Net) (bs : Buckets) (h : Heap) (e : s.table ≡ some (table_of bs))
    (lt : total bs < int_max) (c : IsCounting clock s.stats) where
  pub invoke_size_lem :
      invoke network_send_receive clock (some (plain_message op_size)) s h
      ≡ some (
        (
          pos 0,
          some (size_reply (total bs)),
          record (read_done (reading s)) { stats = some (counted c) },
        ),
        h,
      )
  unfolding invoke dispatch invoke_size plain_message
  invoke_size_lem = ground (
    arith,
    e,
    table_size_lem bs h (omega (arith, lt)),
    count_operation_lem clock (read_done (reading s)) c h,
  )

  pub invoke_getkeys_lem :
      IsAmple h
      → invoke network_send_receive clock (some (plain_message op_getkeys)) s h
        ≡ some (
          (
            pos 0,
            some (keys_reply bs),
            record (read_done (reading s)) { stats = some (counted c) },
          ),
          grown h (temporaries bs + total bs + 1) (temporaries bs),
        )
  unfolding invoke dispatch invoke_getkeys plain_message
  invoke_getkeys_lem full =
      let h' = grown h (temporaries bs + total bs + 1) (temporaries bs) in
      ground (
        arith,
        e,
        table_get_keys_lem bs h full lt,
        table_size_lem bs h' (omega (arith, lt)),
        count_operation_lem clock (read_done (reading s)) c h',
      )
