-- ===== src/Shell/Session.antt =====
-- A session of the client of source/client_hashtable.c with a chain of servers.
use kv_storage_service.Common.{
  ℕ, ◌<◌, ◌≤◌, ◌≡◌, refl, none, some, List, [], ◌∷◌, All, length, map, arith,
}
use kv_storage_service.Machine.{Heap, IsAmple, int_max}
use kv_storage_service.Text.{Str}
use kv_storage_service.Block.{Bytes}
use kv_storage_service.Table.View.{Contents, update}
use kv_storage_service.Skeleton.{Outside, accept}
use kv_storage_service.Message.{op_put, ct_none}
use kv_storage_service.Invoke.Shared.{put_message}
use kv_storage_service.Invoke.Get.{get_message, get_reply}
use kv_storage_service.Invoke.Del.{del_message, del_reply}
use kv_storage_service.Chain.{Chain, Fits, serve, serve_last, Ready}
use kv_storage_service.Shell.{main_loop}
use kv_storage_service.Shell.Lines.{Request, store, read, remove, line, IsTyped, length-value}
use kv_storage_service.Shell.Replay.{replay, outcome}
use kv_storage_service.Shell.Commands.{
  Sized, joined, put_command_lem, get_command_lem, del_command_lem,
}
use kv_storage_service.Shell.Parsing.{turn-line}

update-Sized :
    (f : Contents) (k : Str) (v : Bytes)
    → 0 < length v
    → length v ≤ int_max
    → Sized f
    → Sized (update f k (some v))
update-Sized f k v lt le sized q w e = ground (arith, sized q w)

erase-Sized : (f : Contents) (k : Str) → Sized f → Sized (update f k none)
erase-Sized f k sized q w e = ground (arith, sized q w)

-- Each of the requests, and the reply that it gets on one map, fits into a frame.
abbrev pub Cross : Outside → Contents → List Request → Type 0
Cross clock f [] = Unit
Cross clock f (store k v ∷ rs) =
    Fits clock (put_message k v)
    × Fits clock (accept (put_message k v) op_put ct_none)
    × Cross clock (update f k (some v)) rs
Cross clock f (read k ∷ rs) =
    Fits clock (get_message k) × Fits clock (get_reply (get_message k) (f k)) × Cross clock f rs
Cross clock f (remove k ∷ rs) =
    Fits clock (del_message k) × Fits clock (del_reply k (f k)) × Cross clock (update f k none) rs

module _ (clock : Outside) (n : ℕ) where
  -- Where all servers of a chain have valid tables with the same contents, whose values have 1 to
  -- 2^31 - 1 bytes, room for an entry and statistics for an operation for each of the requests, no
  -- one inside their locks, and malloc refuses nothing: a client that is connected to both ends of
  -- the chain, and is typed a sequence of puts, gets and removals (lines of at most 2047 bytes, keys
  -- of one or more ASCII characters without spaces and newlines that add up to an int, values of one
  -- byte or more without newlines), each of which fits with its reply into a message of less than
  -- 64 KiB, goes through all of them and prints exactly what the same requests give on one map; all
  -- servers then have the contents that this map has come to.
  pub main_loop-replay :
      (rs : List Request) (f : Contents) (c : Chain n) (h : Heap)
      → All IsTyped rs
      → Sized f
      → Cross clock f rs
      → Ready (length rs) n f clock c
      → IsAmple h
      → (c' : Chain n) × (h' : Heap) × (main_loop
            (serve n clock)
            (serve_last n clock)
            (map (λ r. some (line r)) rs)
            (joined c)
            h
          ≡ some ((replay f rs, some (joined c')), h'))
        × Ready 0 n (outcome f rs) clock c'
  unfolding main_loop
  main_loop-replay [] f c h typed sized cross ready full = (c, h, refl, ready)
  main_loop-replay (store k v ∷ rs) f c h ((key, text, lt, short), typed) sized
        (asks, answers, cross) ready full =
      let le : length v ≤ int_max = omega (arith, length-value k v, short) in
      let (c₁, h₁, run, after, full₁) =
        put_command_lem clock (length rs) n f c k key.plain h ready full v lt le asks answers in
      let (c', h', rest, last) =
        main_loop-replay rs (update f k (some v)) c₁ h₁ typed (update-Sized f k v lt le sized) cross
          after full₁ in
      (
        c',
        h',
        ground (
          arith,
          turn-line (serve n clock) (serve_last n clock) (store k v) (joined c) h
              (key, text, lt, short),
          run,
          rest,
        ),
        last,
      )
  main_loop-replay (read k ∷ rs) f c h ((key, short), typed) sized (asks, answers, cross) ready
        full =
      let (c₁, h₁, run, after, full₁) =
        get_command_lem clock (length rs) n f c k key.plain h ready full sized asks answers in
      let (c', h', rest, last) = main_loop-replay rs f c₁ h₁ typed sized cross after full₁ in
      (
        c',
        h',
        ground (
          arith,
          turn-line (serve n clock) (serve_last n clock) (read k) (joined c) h (key, short),
          run,
          rest,
        ),
        last,
      )
  main_loop-replay (remove k ∷ rs) f c h ((key, short), typed) sized (asks, answers, cross) ready
        full =
      let (c₁, h₁, run, after, full₁) =
        del_command_lem clock (length rs) n f c k key.plain h ready full asks answers in
      let (c', h', rest, last) =
        main_loop-replay rs (update f k none) c₁ h₁ typed (erase-Sized f k sized) cross after
          full₁ in
      (
        c',
        h',
        ground (
          arith,
          turn-line (serve n clock) (serve_last n clock) (remove k) (joined c) h (key, short),
          run,
          rest,
        ),
        last,
      )
