-- ===== src/Shell/Commands.antt =====
-- The commands of source/client_hashtable.c for a put, a get and a removal, where a chain of
-- servers is at the other end.
use kv_storage_service.Common.{
  ℕ, suc, ◌<◌, ◌≤◌, ◌≡◌, refl, ◌∙◌, none, some, Option-cases, inl, inr, [], ◌∷◌, length,
  take-length, true, arith,
}
use kv_storage_service.Machine.{Heap, IsAmple, grown, released, asked, int_max, malloc, free, ◌>>=◌}
use kv_storage_service.Text.{Str}
use kv_storage_service.Block.{Bytes, block_create, block_destroy}
use kv_storage_service.Entry.{entry_create}
use kv_storage_service.Table.Hash.{IsPlain}
use kv_storage_service.Table.View.{Contents, update}
use kv_storage_service.Stub.{
  rtable_put, rtable_get, rtable_del, exchange, accepted, entry_message, key_message, read_value,
  receive_value, copy_contents, acknowledge,
}
use kv_storage_service.Skeleton.{Outside, accept}
use kv_storage_service.Message.{op_put, ct_none}
use kv_storage_service.Invoke.Shared.{block_create_lem, put_message}
use kv_storage_service.Invoke.Get.{get_message, get_reply}
use kv_storage_service.Invoke.Del.{del_message, del_reply}
use kv_storage_service.Chain.{Chain, Fits, serve, serve_last, Ready}
use kv_storage_service.Chain.Put.{serve-put}
use kv_storage_service.Chain.Del.{serve-del}
use kv_storage_service.Chain.Get.{serve_last-get}
use kv_storage_service.Printing.{newline, put_done, print_value, write_block}
use kv_storage_service.Shell.{Client, put_command, get_command, del_command}
use kv_storage_service.Shell.Replay.{shown, dropped}

-- The values of a map are no longer than an int says, and not empty.
abbrev pub Sized : Contents → Type 0
Sized f = (q : Str) (v : Bytes) → f q ≡ some v → (0 < length v) × (length v ≤ int_max)

-- A client that is connected to both ends of a chain.
abbrev pub joined : {Net : Type 0} → Net → Client Net
joined net = record { head = true; tail = true; net = net }

module _ (clock : Outside) (m n : ℕ) (f : Contents) (c : Chain n) (k : Str) (p : IsPlain k)
    (h : Heap) (ready : Ready (suc m) n f clock c) (full : IsAmple h) where
  pub put_command_lem :
      (v : Bytes)
      → 0 < length v
      → length v ≤ int_max
      → Fits clock (put_message k v)
      → Fits clock (accept (put_message k v) op_put ct_none)
      → (c' : Chain n) × (h' : Heap) × (put_command
            (serve n clock)
            (serve_last n clock)
            (some k)
            (some v)
            (joined c)
            h
          ≡ some ((put_done ∷ newline ∷ [], joined c'), h'))
        × Ready m n (update f k (some v)) clock c'
        × IsAmple h'
  unfolding put_command entry_create malloc rtable_put exchange accepted entry_message acknowledge
      free
  put_command_lem v lt le asks answers =
      let (c', h', run, after, full') =
        serve-put clock k v p lt le asks answers m n f c (grown h 2 0) ready full in
      (
        c',
        released (released h' 1) 1,
        rw (block_create_lem v h full lt le, ◌>>=◌) (ground (arith, run, full)),
        after,
        full',
      )

  pub del_command_lem :
      Fits clock (del_message k)
      → Fits clock (del_reply k (f k))
      → (c' : Chain n) × (h' : Heap) × (del_command
            (serve n clock)
            (serve_last n clock)
            (some k)
            (joined c)
            h
          ≡ some ((dropped (f k), joined c'), h'))
        × Ready m n (update f k none) clock c'
        × IsAmple h'
  unfolding del_command rtable_del exchange accepted key_message acknowledge
  del_command_lem asks answers =
      let (c', h', run, after, calm) = serve-del clock k p asks m n f c h answers ready in
      (c', h', ground (arith, run), after, calm ∙ full)

  pub get_command_lem :
      Sized f
      → Fits clock (get_message k)
      → Fits clock (get_reply (get_message k) (f k))
      → (c' : Chain n) × (h' : Heap) × (get_command
            (serve n clock)
            (serve_last n clock)
            (some k)
            (joined c)
            h
          ≡ some ((shown (f k), joined c'), h'))
        × Ready m n f clock c'
        × IsAmple h'
  unfolding get_command rtable_get exchange accepted key_message read_value receive_value
      copy_contents print_value write_block malloc block_create block_destroy free
  get_command_lem sized asks answers =
      let (c', h', run, after, full') =
        serve_last-get clock k p asks m n f c h answers ready full in
      elim (Option-cases (f k)) [
        | inl nothing ↦ (c', h', ground (arith, run, nothing), after, full')
        | inr (v, there) ↦
            let (lt, le) = sized k v there in
            (
              c',
              released (released (asked (asked h')) 1) 1,
              ground (arith, run, there, full', take-length v, lt, le),
              after,
              rw full' refl,
            )
      ]
