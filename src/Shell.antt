-- ===== src/Shell.antt =====
-- The command loop of `main` of source/client_hashtable.c. The connections to the two ends of the
-- chain are the section's parameters: a request over `head` or `tail` goes to what they have in
-- common, and comes back with it. What fgets gives at each turn is an argument, what the program
-- prints a result.
pub mod Lines
pub mod Replay
pub mod Commands
pub mod Listing
pub mod Table
pub mod Parsing
pub mod Session
use kv_storage_service.Common.{
  ℕ, ℤ, pos, Option, none, some, List, [], ◌∷◌, ◌++◌, Bool, true, false, ◌||◌, not, ltb, length,
  narrow, is_zero, is_neg, if◌then◌else◌,
}
use kv_storage_service.Machine.{M, pure, fault, ◌>>=◌, ◌>>◌, free, deref, memcpy, to_size}
use kv_storage_service.Text.{Str, strcmp}
use kv_storage_service.Text.Token.{token, strtok}
use kv_storage_service.Block.{Bytes, Block, block_create, block_destroy}
use kv_storage_service.Entry.{Entry, entry_create}
use kv_storage_service.Printing.{
  Output, prompt, newline, usage, bye, put_failed, put_done, get_failed, del_failed, del_done,
  size_failed, keys_failed, table_failed, stats_failed, size_line, operations_line, time_line,
  clients_line, key_line, entry_key, bytes, write_block, print_value, key_lines, print_keys,
  entry_lines, print_table, print_stats,
}
use kv_storage_service.LinkedList.{KeyArray}
use kv_storage_service.Stats.{Stats, stats_destroy}
use kv_storage_service.Message.{MessageT}
use kv_storage_service.Stub.{
  rtable_put, rtable_get, rtable_del, rtable_size, rtable_get_keys, rtable_get_table, rtable_stats,
  rtable_free_keys, rtable_free_entries,
}

-- the size of the array that fgets fills, with the 0 at the end
abbrev pub max_msg : ℕ
max_msg = 2048

abbrev pub space : Str
space = 32 ∷ []

abbrev pub line_end : Str
line_end = 10 ∷ []

-- the two names of each command
abbrev pub is_op : Str → Str → Str → Bool
is_op short long op = is_zero (strcmp op short) || is_zero (strcmp op long)

abbrev pub p_put : Str → Bool
p_put = is_op (112 ∷ []) (112 ∷ 117 ∷ 116 ∷ [])

abbrev pub g_get : Str → Bool
g_get = is_op (103 ∷ []) (103 ∷ 101 ∷ 116 ∷ [])

abbrev pub d_del : Str → Bool
d_del = is_op (100 ∷ []) (100 ∷ 101 ∷ 108 ∷ [])

abbrev pub s_size : Str → Bool
s_size = is_op (115 ∷ []) (115 ∷ 105 ∷ 122 ∷ 101 ∷ [])

abbrev pub k_getkeys : Str → Bool
k_getkeys = is_op (107 ∷ []) (103 ∷ 101 ∷ 116 ∷ 107 ∷ 101 ∷ 121 ∷ 115 ∷ [])

abbrev pub t_gettable : Str → Bool
t_gettable = is_op (116 ∷ []) (103 ∷ 101 ∷ 116 ∷ 116 ∷ 97 ∷ 98 ∷ 108 ∷ 101 ∷ [])

abbrev pub st_stats : Str → Bool
st_stats = is_op (115 ∷ 116 ∷ []) (115 ∷ 116 ∷ 97 ∷ 116 ∷ 115 ∷ [])

abbrev pub q_quit : Str → Bool
q_quit = is_op (113 ∷ []) (113 ∷ 117 ∷ 105 ∷ 116 ∷ [])

-- Whether the program has a connection to the head and to the tail, and what is behind them.
pub record Client (Net : Type 0) : Type 0 where
  pub head : Bool
  pub tail : Bool
  pub net : Net

-- The connection that a call gets, and what is behind it after the call.
abbrev pub link : {Net : Type 0} → Bool → Net → Option Net
link false net = none
link true net = some net

abbrev pub behind_link : {Net : Type 0} → Client Net → Option Net → Client Net
behind_link c none = c
behind_link c (some net) = record c { net = net }

module _ {Net : Type 0} (to_head to_tail : Net → MessageT → M (Option MessageT × Net)) where
  unfoldable pub put_command : Option Str → Option Str → Client Net → M (List Output × Client Net)
  put_command none value c = pure (usage ∷ [], c)
  put_command (some key) none c = pure (usage ∷ [], c)
  put_command (some key) (some value) c = do
    block ← block_create (narrow (pos (length value))) (some value)
    entry ← entry_create (some key) block
    (result, net) ← rtable_put to_head (link c.head c.net) entry
    free block
    free entry
    pure ((if is_neg result then put_failed else put_done) ∷ newline ∷ [], behind_link c net)

  unfoldable pub get_command : Option Str → Client Net → M (List Output × Client Net)
  get_command none c = pure (usage ∷ [], c)
  get_command (some key) c = do
    (block, net) ← rtable_get to_tail (link c.tail c.net) (some key)
    printed ← print_value block
    pure (printed, behind_link c net)

  unfoldable pub del_command : Option Str → Client Net → M (List Output × Client Net)
  del_command none c = pure (usage ∷ [], c)
  del_command (some key) c = do
    (result, net) ← rtable_del to_head (link c.head c.net) (some key)
    pure ((if is_neg result then del_failed else del_done) ∷ newline ∷ [], behind_link c net)

  unfoldable pub size_command : Client Net → M (List Output × Client Net)
  size_command c = do
    (size, net) ← rtable_size to_tail (link c.tail c.net)
    pure ((if is_neg size then size_failed else size_line size) ∷ newline ∷ [], behind_link c net)

  unfoldable pub keys_command : Client Net → M (List Output × Client Net)
  keys_command c = do
    (keys, net) ← rtable_get_keys to_tail (link c.tail c.net)
    printed ← print_keys keys
    pure (printed, behind_link c net)

  unfoldable pub table_command : Client Net → M (List Output × Client Net)
  table_command c = do
    (entries, net) ← rtable_get_table to_tail (link c.tail c.net)
    printed ← print_table entries
    pure (printed, behind_link c net)

  unfoldable pub stats_command : Client Net → M (List Output × Client Net)
  stats_command c = do
    (stats, net) ← rtable_stats to_tail (link c.tail c.net)
    printed ← print_stats stats
    pure (printed, behind_link c net)

  -- The client after a command that does not quit.
  abbrev pub kept : M (List Output × Client Net) → M (List Output × Option (Client Net))
  kept command = do (printed, c) ← command; pure (printed, some c)

  -- The command of a line, with where strtok goes on; none is the client where it quits, before it
  -- closes the connections.
  unfoldable pub command : Str → Str → Client Net → M (List Output × Option (Client Net))
  command op rest c =
      let (first, behind_first) = strtok space rest in
      if p_put op
      then kept (put_command first (strtok [] behind_first).0 c)
      else if g_get op
      then kept (get_command first c)
      else if d_del op
      then kept (del_command first c)
      else if s_size op
      then kept (size_command c)
      else if k_getkeys op
      then kept (keys_command c)
      else if t_gettable op
      then kept (table_command c)
      else if st_stats op
      then kept (stats_command c)
      else if q_quit op
      then pure (bye ∷ [], none)
      else pure (usage ∷ [], some c)

  -- One turn of the loop, for the first word of the line and where strtok goes on.
  unfoldable pub answer_word : Option Str → Str → Client Net → M (List Output × Option (Client Net))
  answer_word none rest c = pure (prompt ∷ usage ∷ [], some c)
  answer_word (some op) rest c = do (printed, c') ← command op rest c; pure (prompt ∷ printed, c')

  -- The turn, for what fgets gives: less than MAX_MSG bytes, as it leaves more for the next turn.
  unfoldable pub turn : Option Str → Client Net → M (List Output × Option (Client Net))
  turn none c = pure (prompt ∷ usage ∷ [], some c)
  turn (some input) c =
      if not (ltb (length input) max_msg)
      then fault
      else let (op, rest) = strtok space (token line_end input) in answer_word op rest c

  -- The loop over what fgets gives.
  unfoldable pub main_loop : List (Option Str) → Client Net → M (List Output × Option (Client Net))
  main_loop [] c = pure ([], some c)
  main_loop (line ∷ lines) c = do
    (printed, left) ← turn line c
    elim left [
      | none ↦ pure (printed, none)
      | some c' ↦ do (rest, last) ← main_loop lines c'; pure (printed ++ rest, last)
    ]
