-- ===== src/Tests/Frames.antt =====
-- A socket that moves one byte at a time.
use kv_storage_service.Common.{ℕ, zero, suc, refl, sym, List, [], ◌∷◌, ◌++◌, arith}
use mathlib.Core.List.{append-nil}
use kv_storage_service.Message.{MessageT}
use kv_storage_service.Transfer.{Outcome, moved}
use kv_storage_service.Transfer.Writes.{Wrote}
use kv_storage_service.Transfer.Reads.{Got}

-- A socket is the bytes on the wire.
abbrev pub put_byte : List ℕ → List ℕ → Outcome ℕ × List ℕ
put_byte bytes [] = (moved 0, bytes)
put_byte bytes (b ∷ bs) = (moved 1, bytes ++ b ∷ [])

abbrev pub get_byte : List ℕ → ℕ → Outcome (List ℕ) × List ℕ
get_byte bytes zero = (moved [], bytes)
get_byte [] (suc len) = (moved [], [])
get_byte (b ∷ bytes) (suc len) = (moved (b ∷ []), bytes)

pub put_byte-Wrote : (s buf : List ℕ) → Wrote (λ w. w) (λ _. 0) s buf (put_byte s buf)
put_byte-Wrote s [] = (omega arith, sym (append-nil s), omega arith)
put_byte-Wrote s (b ∷ bs) = (omega arith, refl, omega arith)

pub get_byte-Got : (s : List ℕ) (len : ℕ) → Got (λ w. w) (λ _. 0) s len (get_byte s len)
get_byte-Got s zero = (omega arith, refl, omega arith)
get_byte-Got [] (suc len) = (omega arith, refl, omega arith)
get_byte-Got (b ∷ bytes) (suc len) = (omega arith, refl, omega arith)

-- a serialisation of messages that have an opcode only
abbrev pub pack_opcode : MessageT → List ℕ
pack_opcode msg = msg.opcode ∷ []
