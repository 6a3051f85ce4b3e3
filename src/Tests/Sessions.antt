-- ===== src/Tests/Sessions.antt =====
-- A session of a client with a chain of two servers.
use kv_storage_service.Common.{
  pos, ◌++◌, ◌<◌, ◌≤◌, ◌≡◌, refl, ◌∙◌, some, List, [], ◌∷◌, All, map, length, arith,
}
use kv_storage_service.Machine.{IsAmple, Heap, int_max, pure, ◌>>=◌}
use kv_storage_service.Text.{Str}
use kv_storage_service.Block.{Bytes}
use kv_storage_service.LinkedList.Items.{Items, find}
use kv_storage_service.Table.View.{view}
use kv_storage_service.Table.Listing.{all_items, find-all_items}
use kv_storage_service.Stub.Entries.{IsSized}
use kv_storage_service.Chain.{Chain, serve, serve_last, Ready}
use kv_storage_service.Printing.{size_line, key_line, newline, prompt}
use kv_storage_service.Shell.{size_command, keys_command, table_command, main_loop, turn}
use kv_storage_service.Shell.Lines.{Request, store, read, remove, line, IsKey}
use kv_storage_service.Shell.Replay.{replay, outcome}
use kv_storage_service.Shell.Commands.{Sized, joined}
use kv_storage_service.Shell.Parsing.{requested, turn-line}
use kv_storage_service.Shell.Listing.{IsListing, size_command_lem, keys_command_lem}
use kv_storage_service.Shell.Table.{table_lines, table_command_lem}
use kv_storage_service.Table.Walk.{keys_in}
use kv_storage_service.Shell.Session.{main_loop-replay}
use kv_storage_service.Tests.Chains.{clock, head, head-Ready}
use kv_storage_service.Tests.Tables.{fresh, ab, ab-IsPlain, one_entry, one_entry-IsTable}

find-IsSized :
    (q : Str) (xs : Items) (v : Bytes)
    → All IsSized xs
    → find q xs ≡ some v
    → (0 < length v) × (length v ≤ int_max)
find-IsSized q [] v a e = ground (arith, e)
find-IsSized q (i ∷ xs) v ((lt, le), a) e = ground (arith, e, find-IsSized q xs v a)

one_entry-Sized : Sized (view one_entry)
one_entry-Sized q v e =
    find-IsSized q (all_items one_entry) v (unfold all_items in ((omega arith, omega arith), tt))
      (find-all_items one_entry q one_entry-IsTable ∙ e)

ab-IsKey : IsKey ab
ab-IsKey = record {
  named = omega arith;
  word = ((omega arith, omega arith), ((omega arith, omega arith), tt));
  plain = ab-IsPlain;
}

-- "put ab xy", "get ab", "del ab", "get ab"
abbrev typed : List Request
typed = store ab (120 ∷ 121 ∷ []) ∷ read ab ∷ remove ab ∷ read ab ∷ []

turn-line_example :
    turn
      (serve 2 clock)
      (serve_last 2 clock)
      (some (line (store ab (120 ∷ 121 ∷ []))))
      (joined head)
      fresh
    ≡ (do
      (printed, c') ←
          requested (serve 2 clock) (serve_last 2 clock) (store ab (120 ∷ 121 ∷ [])) (joined head)
      pure (prompt ∷ printed, some c'))
        fresh
turn-line_example =
    turn-line (serve 2 clock) (serve_last 2 clock) (store ab (120 ∷ 121 ∷ [])) (joined head) fresh
      (ab-IsKey, ((omega arith), ((omega arith), tt)), (omega arith), (omega arith))

main_loop_example :
    (c' : Chain 2) × (h' : Heap) × (main_loop
        (serve 2 clock)
        (serve_last 2 clock)
        (map (λ r. some (line r)) typed)
        (joined head)
        fresh
      ≡ some ((replay (view one_entry) typed, some (joined c')), h'))
    × Ready 0 2 (outcome (view one_entry) typed) clock c'
main_loop_example =
    main_loop-replay clock 2 typed (view one_entry) head fresh
      (
        (ab-IsKey, ((omega arith), ((omega arith), tt)), (omega arith), (omega arith)),
        ((ab-IsKey, (omega arith)), ((ab-IsKey, (omega arith)), ((ab-IsKey, (omega arith)), tt))),
      )
      one_entry-Sized
      (
        (omega arith),
        (omega arith),
        (
          (omega arith),
          (omega arith),
          ((omega arith), (omega arith), ((omega arith), (omega arith), tt)),
        ),
      )
      (head-Ready 4 (omega arith)) refl

size_command_example :
    (ks : List Str) × (c' : Chain 2) × (h' : Heap) × (size_command
        (serve 2 clock)
        (serve_last 2 clock)
        (joined head)
        fresh
      ≡ some ((size_line (pos (length ks)) ∷ newline ∷ [], joined c'), h'))
    × IsListing (view one_entry) ks
    × Ready 0 2 (view one_entry) clock c'
    × IsAmple h'
size_command_example =
    size_command_lem clock 0 2 (view one_entry) head fresh (head-Ready 1 (omega arith)) refl
      (omega arith) (λ k. omega arith)

keys_command_example :
    (ks : List Str) × (c' : Chain 2) × (h' : Heap) × (keys_command
        (serve 2 clock)
        (serve_last 2 clock)
        (joined head)
        fresh
      ≡ some ((map key_line ks ++ newline ∷ [], joined c'), h'))
    × IsListing (view one_entry) ks
    × Ready 0 2 (view one_entry) clock c'
    × IsAmple h'
keys_command_example =
    keys_command_lem clock 0 2 (view one_entry) head fresh (head-Ready 1 (omega arith)) refl
      (omega arith) (λ bs t same. omega arith)

table_command_example :
    (xs : Items) × (c' : Chain 2) × (h' : Heap) × (table_command
        (serve 2 clock)
        (serve_last 2 clock)
        (joined head)
        fresh
      ≡ some ((table_lines xs ++ newline ∷ [], joined c'), h'))
    × IsListing (view one_entry) (keys_in xs)
    × ((q : Str) → find q xs ≡ view one_entry q)
    × Ready 0 2 (view one_entry) clock c'
    × IsAmple h'
table_command_example =
    table_command_lem clock 0 2 (view one_entry) head fresh (head-Ready 1 (omega arith))
      one_entry-Sized refl (omega arith) (λ bs t same. omega arith)
