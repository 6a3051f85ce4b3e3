-- ===== src/Shell/Parsing.antt =====
-- The loop of source/client_hashtable.c reads the request back from its line.
use kv_storage_service.Common.{length, ◌<◌, ◌≡◌, ap, ◌∙◌, Option, some, List, ◌∷◌, ◌++◌, arith}
use kv_storage_service.Machine.{Heap, M, pure, ◌>>=◌}
use kv_storage_service.Text.{Str, cmp}
use kv_storage_service.Text.Token.{token, strtok}
use kv_storage_service.Message.{MessageT}
use kv_storage_service.Printing.{Output, prompt}
use kv_storage_service.Shell.{
  Client, put_command, get_command, del_command, command, answer_word, turn, line_end, space,
  max_msg,
}
use kv_storage_service.Shell.Lines.{
  Request, store, read, remove, line, put_word, get_word, del_word, IsText, IsWord, IsTyped,
  token-line, strtok-word, strtok-last, strtok-rest, IsWord-IsText, IsText-append,
}

put_word-IsWord : IsWord put_word
put_word-IsWord =
    ((omega arith, omega arith), ((omega arith, omega arith), ((omega arith, omega arith), tt)))

get_word-IsWord : IsWord get_word
get_word-IsWord =
    ((omega arith, omega arith), ((omega arith, omega arith), ((omega arith, omega arith), tt)))

del_word-IsWord : IsWord del_word
del_word-IsWord =
    ((omega arith, omega arith), ((omega arith, omega arith), ((omega arith, omega arith), tt)))

-- The first word of a line, and what follows it.
first_word :
    (word rest : Str)
    → 0 < length word
    → IsWord word
    → IsText rest
    → strtok space (token line_end ((word ++ 32 ∷ rest) ++ line_end)) ≡ (some word, rest)
first_word word rest lt a b =
    ap (strtok space) (
      token-line (word ++ 32 ∷ rest)
        (IsText-append word (32 ∷ rest) (IsWord-IsText word a) ((omega arith), b)))
    ∙ strtok-word word rest lt a

module _ {Net : Type 0} (to_head to_tail : Net → MessageT → M (Option MessageT × Net)) where
  -- What the program does for a request.
  abbrev pub requested : Request → Client Net → M (List Output × Client Net)
  requested (store k v) c = put_command to_head to_tail (some k) (some v) c
  requested (read k) c = get_command to_head to_tail (some k) c
  requested (remove k) c = del_command to_head to_tail (some k) c

  -- A line that fits into the array is answered by its first word.
  whole :
      (input : Str) (c : Client Net) (h : Heap)
      → length input < max_msg
      → turn to_head to_tail (some input) c h
        ≡ answer_word to_head to_tail
            (strtok space (token line_end input)).0
            (strtok space (token line_end input)).1
            c
            h
  unfolding turn
  whole input c h short = ground arith

  -- The line of a put, a get or a removal is taken for exactly that command, key and value, whatever
  -- is at the other end of the connections. The line has at most 2047 bytes, so that fgets gives it as
  -- a whole; the key has at least one character, is ASCII without spaces and newlines and adds up to
  -- an int; the value has at least one byte and no newline.
  pub turn-line :
      (r : Request) (c : Client Net) (h : Heap)
      → IsTyped r
      → turn to_head to_tail (some (line r)) c h
        ≡ (do (printed, c') ← requested r c; pure (prompt ∷ printed, some c')) h
  unfolding turn answer_word command cmp
  turn-line (store k v) c h (key, text, lt, short) =
      whole (line (store k v)) c h short
      ∙ ap (λ x. answer_word to_head to_tail x.0 x.1 c h)
          (first_word put_word (k ++ 32 ∷ v) (omega arith) put_word-IsWord
            (IsText-append k (32 ∷ v) (IsWord-IsText k key.word) ((omega arith), text)))
      ∙ rw (strtok-word k v key.named key.word, strtok-rest v lt) (ground arith)
  turn-line (read k) c h (key, short) =
      whole (line (read k)) c h short
      ∙ ap (λ x. answer_word to_head to_tail x.0 x.1 c h)
          (first_word get_word k (omega arith) get_word-IsWord (IsWord-IsText k key.word))
      ∙ rw (strtok-last k key.named key.word) (ground arith)
  turn-line (remove k) c h (key, short) =
      whole (line (remove k)) c h short
      ∙ ap (λ x. answer_word to_head to_tail x.0 x.1 c h)
          (first_word del_word k (omega arith) del_word-IsWord (IsWord-IsText k key.word))
      ∙ rw (strtok-last k key.named key.word) (ground arith)
