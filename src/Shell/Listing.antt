-- ===== src/Shell/Listing.antt =====
-- The commands of source/client_hashtable.c that list and count the keys, where a chain of servers
-- is at the other end.
use kv_storage_service.Common.{
  length-append, ℕ, suc, ◌+◌, ◌<◌, ◌≡◌, refl, ap, ◌∙◌, Option, none, some, List, [], ◌∷◌, ◌++◌,
  length, narrow, narrow_lem, ◌+ℤ◌, map, pos, arith,
}
use kv_storage_service.Machine.{Heap, IsAmple, grown, released, malloc, free, int_max}
use kv_storage_service.Text.{Str}
use kv_storage_service.LinkedList.{strdup, free_each}
use kv_storage_service.LinkedList.Items.{Items}
use kv_storage_service.Table.View.{Buckets, items_of, Contents, view, total, IsTable}
use kv_storage_service.Table.Walk.{all_keys, keys_in}
use kv_storage_service.Table.Keys.{occurs, found, occurs-all_keys}
use kv_storage_service.Message.{MessageT, op_size, op_getkeys}
use kv_storage_service.Stub.{
  plain_message, rtable_size, rtable_get_keys, rtable_free_keys, exchange, accepted, read_size,
  read_keys, deref_array, dup_keys,
}
use kv_storage_service.Skeleton.{Outside}
use kv_storage_service.Invoke.Shared.{counting, spent, end_read-start_read}
use kv_storage_service.Invoke.Keys.{size_reply, keys_reply, invoke_size_lem, invoke_getkeys_lem}
use kv_storage_service.Chain.{Chain, Fits, serve, serve_last, Ready}
use kv_storage_service.Chain.Last.{serve_last-reads}
use kv_storage_service.Printing.{newline, size_line, key_line, print_keys, key_lines}
use kv_storage_service.Shell.{size_command, keys_command}
use kv_storage_service.Shell.Commands.{joined}

-- A list that has each key of the map once, and no other.
abbrev pub IsListing : Contents → List Str → Type 0
IsListing f ks = (q : Str) → occurs q ks ≡ found (f q)

-- A reply about the keys of a table with the contents f.
abbrev About : Contents → (Buckets → MessageT) → MessageT → Type 0
About f reply_of reply =
    (bs : Buckets) × IsTable bs
    × ((q : Str) → view bs q ≡ f q)
    × (total bs < int_max)
    × (reply ≡ reply_of bs)

-- the array of the keys, with the NULL at its end
abbrev key_array : List Str → List (Option Str)
key_array ks = map some ks ++ none ∷ []

dup_keys_lem :
    (ks : List Str) (h : Heap)
    → IsAmple h
    → dup_keys (length ks) (key_array ks) h ≡ some (key_array ks, grown h (length ks) 0)
unfolding dup_keys strdup malloc
dup_keys_lem [] h full = ground arith
dup_keys_lem (k ∷ ks) h full = ground (arith, full, dup_keys_lem ks (grown h 1 0) full)

key_lines_lem : (ks : List Str) (h : Heap) → key_lines (key_array ks) h ≡ some (map key_line ks, h)
unfolding key_lines
key_lines_lem [] h = refl
key_lines_lem (k ∷ ks) h = ground (arith, key_lines_lem ks h)

free_each_lem :
    (ks : List Str) (h : Heap) → free_each (key_array ks) h ≡ some (tt, released h (length ks))
unfolding free_each free
free_each_lem [] h = ground arith
free_each_lem (k ∷ ks) h = ground (arith, free_each_lem ks (released h 1))

length-keys_in : (xs : Items) → length (keys_in xs) ≡ length xs
length-keys_in [] = refl
length-keys_in (i ∷ xs) = omega (arith, length-keys_in xs)

length-all_keys : (bs : Buckets) → length (all_keys bs) ≡ total bs
unfolding all_keys total
length-all_keys [] = refl
length-all_keys (b ∷ bs) = omega (
  arith,
  length-append (keys_in (items_of b)) (all_keys bs),
  length-keys_in (items_of b),
  length-all_keys bs,
)

module _ (clock : Outside) (m n : ℕ) (f : Contents) (c : Chain n) (h : Heap)
    (ready : Ready (suc m) n f clock c) (full : IsAmple h) where
  -- Where malloc refuses nothing and all servers of a chain have valid tables with the same contents,
  -- room for m + 1 more entries, statistics with room for as many operations and no one inside their
  -- locks, and the request and a reply that is a number have less than 64 KiB: the `size` of a
  -- client that is connected to both ends of the chain prints the length of a list that has each key
  -- of these contents once and no other.
  pub size_command_lem :
      Fits clock (plain_message op_size)
      → ((k : ℕ) → Fits clock (size_reply k))
      → (ks : List Str) × (c' : Chain n) × (h' : Heap) × (size_command
            (serve n clock)
            (serve_last n clock)
            (joined c)
            h
          ≡ some ((size_line (pos (length ks)) ∷ newline ∷ [], joined c'), h'))
        × IsListing f ks
        × Ready m n f clock c'
        × IsAmple h'
  unfolding size_command rtable_size exchange accepted plain_message read_size
  size_command_lem asks answers =
      let (reply, c', h', run, (bs, t, same, _, is_reply), after, full') =
        serve_last-reads clock (plain_message op_size) m f (About f (λ bs. size_reply (total bs)))
          asks n c h
          (λ n s bs h e t same room budget full. (
            size_reply (total bs),
            _,
            h,
            invoke_size_lem (serve n clock) clock s bs h e (omega (arith, room)) (counting budget),
            (bs, t, same, omega (arith, room), refl),
            answers (total bs),
            refl,
            refl,
            end_read-start_read s.lock,
            spent budget,
            full,
          ))
          ready full in
      (
        all_keys bs,
        c',
        h',
        ground (arith, run, is_reply, length-all_keys bs),
        λ q. occurs-all_keys q bs t ∙ ap found (same q),
        after,
        full',
      )

  -- Where malloc refuses nothing and all servers of a chain have valid tables with the same contents,
  -- room for m + 1 more entries, statistics with room for as many operations and no one inside their
  -- locks, and the request and a reply with the keys of these contents have less than 64 KiB: the
  -- `getkeys` of a
  -- client that is connected to both ends of the chain prints, line by line, a list that has each key
  -- of these contents once and no other.
  pub keys_command_lem :
      Fits clock (plain_message op_getkeys)
      → ((bs : Buckets) → IsTable bs → ((q : Str) → view bs q ≡ f q) → Fits clock (keys_reply bs))
      → (ks : List Str) × (c' : Chain n) × (h' : Heap) × (keys_command
            (serve n clock)
            (serve_last n clock)
            (joined c)
            h
          ≡ some ((map key_line ks ++ newline ∷ [], joined c'), h'))
        × IsListing f ks
        × Ready m n f clock c'
        × IsAmple h'
  unfolding keys_command rtable_get_keys exchange accepted plain_message read_keys deref_array ◌+ℤ◌
      print_keys rtable_free_keys malloc free
  keys_command_lem asks answers =
      let (reply, c', h', run, (bs, t, same, small, is_reply), after, full') =
        serve_last-reads clock (plain_message op_getkeys) m f (About f keys_reply) asks n c h
          (λ n s bs h e t same room budget full. (
            keys_reply bs,
            _,
            _,
            invoke_getkeys_lem (serve n clock) clock s bs h e (omega (arith, room))
                (counting budget) full,
            (bs, t, same, omega (arith, room), refl),
            answers bs t same,
            refl,
            refl,
            end_read-start_read s.lock,
            spent budget,
            full,
          ))
          ready full in
      let count = length-all_keys bs in
      let fits : narrow (pos (length (all_keys bs))) ≡ pos (length (all_keys bs)) =
        narrow_lem (length (all_keys bs)) (omega (arith, count, small)) in
      (
        all_keys bs,
        c',
        released (released (grown h' (length (all_keys bs) + 1) 0) (length (all_keys bs))) 1,
        ground (
          arith,
          run,
          is_reply,
          full',
          count,
          small,
          fits,
          dup_keys_lem (all_keys bs) (grown h' 1 0),
          key_lines_lem (all_keys bs) (grown h' (length (all_keys bs) + 1) 0),
          free_each_lem (all_keys bs) (grown h' (length (all_keys bs) + 1) 0),
        ),
        λ q. occurs-all_keys q bs t ∙ ap found (same q),
        after,
        full',
      )
