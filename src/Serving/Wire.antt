-- ===== src/Serving/Wire.antt =====
-- A request of source/client_network.c and the turn of source/server_network.c that answers it, at
-- the two ends of a connection.
use kv_storage_service.Common.{
  Bool, true, suc, ℕ, ◌+◌, ◌^◌, ◌<◌, ◌≤◌, ◌≡◌, refl, sym, ap, ◌∙◌, Option, none, some, List, [],
  ◌∷◌, ◌++◌, take, pos, length, arith,
}
use mathlib.Core.List.{
  append-nil, append_assoc, append_cancel_left, head-eq_of_cons-eq, tail-eq_of_cons-eq,
}
use kv_storage_service.Machine.{Heap, M, IsAmple, grown}
use kv_storage_service.Message.{MessageT}
use kv_storage_service.Transfer.{Outcome, interrupted, failed, moved}
use kv_storage_service.Transfer.Writes.{Wrote}
use kv_storage_service.Transfer.Reads.{Got}
use kv_storage_service.Transfer.Reliable.{Takes, Gives}
use mathlib.Core.Path.{subst}
use kv_storage_service.Transfer.Stream.{split_eq}
use kv_storage_service.Framing.RoundTrip.{frame}
use kv_storage_service.Skeleton.{Server, Outside}
use kv_storage_service.Invoke.{invoke}
use kv_storage_service.Exchange.{network_send_receive}
use kv_storage_service.Exchange.Reply.{network_send_receive_works}
use kv_storage_service.Serving.{Turned, client_turn}
use kv_storage_service.Serving.Turn.{client_turn_lem}

-- what a run has turned into, or a default
abbrev turned_into :
    {Sock Net : Type 0} → Turned Sock Net → Option (Turned Sock Net × Heap) → Turned Sock Net
turned_into d none = d
turned_into d (some (r, h)) = r

abbrev last_of :
    {Sock Net : Type 0} → Bool × Sock × Server Net → Turned Sock Net → Bool × Sock × Server Net
last_of d none = d
last_of d (some r) = r

-- A run has one result.
same_turn :
    {Sock Net : Type 0} {o : Option (Turned Sock Net × Heap)} {r r' : Bool × Sock × Server Net}
    {h k : Heap}
    → o ≡ some (some r, h)
    → o ≡ some (some r', k)
    → r ≡ r'
same_turn {r = r} e f = ap (λ x. last_of r (turned_into none x)) (sym e ∙ f)

module _ {Sock Net : Type 0} (close : Sock → Sock) (patience : Sock → ℕ) (p : ℕ)
    (calm : (s : Sock) → patience s ≤ p) (sent incoming : Sock → List ℕ)
    (write : Sock → List ℕ → Outcome ℕ × Sock) (read : Sock → ℕ → Outcome (List ℕ) × Sock)
    (writes : (s : Sock) (buf : List ℕ) → Wrote sent patience s buf (write s buf))
    (reads : (s : Sock) (len : ℕ) → Got incoming patience s len (read s len))
    (takes : (s : Sock) (b : ℕ) (bs : List ℕ) → Takes (write s (b ∷ bs)))
    (gives : (s : Sock) (len : ℕ) → Gives (incoming s) (read s (suc len)))
    (close_sent : (s : Sock) → sent (close s) ≡ sent s)
    (close_incoming : (s : Sock) → incoming (close s) ≡ incoming s)
    (write_incoming : (s : Sock) (buf : List ℕ) → incoming (write s buf).1 ≡ incoming s)
    (read_sent : (s : Sock) (len : ℕ) → sent (read s len).1 ≡ sent s) (pack : MessageT → List ℕ)
    (unpack : List ℕ → Option MessageT) (forward : Net → MessageT → M (Option MessageT × Net)) where
  -- What is sent, behind what comes and its length: a write goes to its end.
  abbrev both : Sock → List ℕ
  both s = length (incoming s) ∷ incoming s ++ sent s

  both-Wrote :
      (s : Sock) (buf : List ℕ) (o : Outcome ℕ × Sock)
      → incoming o.1 ≡ incoming s
      → Wrote sent patience s buf o
      → Wrote both patience s buf o
  both-Wrote s buf (interrupted, t) e (same, less) = (rw (e, same) refl, less)
  both-Wrote s buf (failed, t) e same = rw (e, same) refl
  both-Wrote s buf (moved k, t) e (le, same, less) = (
    le,
    rw (e, same)
        (ap (λ x. length (incoming s) ∷ x) (sym (append_assoc (incoming s) (sent s) (take k buf)))),
    less,
  )

  both-incoming : (s t : Sock) (bytes : List ℕ) → both t ≡ both s ++ bytes → incoming t ≡ incoming s
  both-incoming s t bytes e =
      (split_eq (incoming t) (sent t) (incoming s) (sent s ++ bytes) (head-eq_of_cons-eq e)
        (tail-eq_of_cons-eq e ∙ append_assoc (incoming s) (sent s) bytes)).0

  pub exchange_lem :
      (n : ℕ) (clock : Outside) (msg reply : MessageT) (s w w' : Sock) (c left : Server Net)
      (P : Server Net → Type 0) (on : Bool) (h k k' : Heap)
      → unpack (pack msg) ≡ some msg
      → unpack (pack reply) ≡ some reply
      → length (pack msg) < 2 ^ 16
      → length (pack reply) < 2 ^ 16
      → p + length (pack msg) + length (pack reply) + 2 < n
      → incoming w ≡ frame (pack msg)
      → IsAmple h
      → IsAmple k
      → ((h₁ : Heap)
          → IsAmple h₁
          → (c' : Server Net) × (h₂ : Heap) × (invoke forward clock (some msg) c h₁
              ≡ some ((pos 0, some reply, c'), h₂))
            × P c'
            × IsAmple h₂)
      → client_turn close write pack read unpack forward n clock w c k
        ≡ some (some (on, w', left), k')
      → sent w' ≡ sent w ++ incoming s
      → (on ≡ true)
        × P left
        × ((t : Sock) × (network_send_receive close read unpack write pack n (some msg) s h
              ≡ some (some (some reply, t), grown h 2 2))
            × (incoming t ≡ []))
  exchange_lem n clock msg reply s w w' c left P on h k k' parses parses' small small' lt front full
        full' answers turned wire =
      let (last, end, k₁, run, holds, full₁, rest, more) =
        client_turn_lem close patience p calm sent incoming write read writes reads takes gives
          close_sent close_incoming write_incoming read_sent pack unpack forward n clock msg reply
          (pack msg) [] w c P k parses small (omega arith) (omega arith)
          (front ∙ sym (append-nil (frame (pack msg)))) full' answers in
      let same = same_turn turned run in
      let comes : incoming s ≡ frame (pack reply) =
        append_cancel_left (sent w) (incoming s) (frame (pack reply))
          (sym wire ∙ ap (λ r. sent r.1) same ∙ more) in
      (
        ap (λ r. r.0) same,
        subst P (sym (ap (λ r. r.2) same)) holds,
        network_send_receive_works close patience p calm both incoming write read
            (λ t buf. both-Wrote t buf (write t buf) (write_incoming t buf) (writes t buf)) reads
            takes gives pack unpack n msg reply (pack reply) [] s h parses' small' lt
            (λ t e.
              both-incoming s t (frame (pack msg)) e
              ∙ comes
              ∙ sym (append-nil (frame (pack reply))))
            full,
      )
