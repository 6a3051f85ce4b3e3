-- ===== src/Serving/Turn.antt =====
-- One turn of the loop of `thread_client` of source/server_network.c.
use kv_storage_service.Common.{
  true, false, ℕ, ◌+◌, ◌^◌, ◌<◌, ◌≤◌, ◌≡◌, Option, none, some, List, [], ◌∷◌, ◌++◌, ap, ◌∙◌, ℤ, suc,
  ◌∷◌, pos, length, arith,
}
use kv_storage_service.Machine.{Heap, M, IsAmple, grown}
use kv_storage_service.Message.{MessageT}
use kv_storage_service.Transfer.{Outcome}
use kv_storage_service.Transfer.Writes.{Wrote}
use kv_storage_service.Transfer.Reads.{Got}
use kv_storage_service.Framing.Reliable.{network_send_works, network_receive_works}
use kv_storage_service.Transfer.Reliable.{Takes, Gives}
use kv_storage_service.Framing.RoundTrip.{frame, network_receive-end}
use kv_storage_service.Framing.Quiet.{Left, network_send-Left, network_receive-Left}
use kv_storage_service.Framing.{network_send, network_receive}
use mathlib.Core.Path.{subst}
use kv_storage_service.Skeleton.{Server, Outside}
use kv_storage_service.Invoke.{invoke}
use kv_storage_service.Serving.{replied, answer_message, client_turn}

-- A socket that is interrupted at most p times, with what is sent over it and what comes. Closing it
-- changes neither, reading does not change what is sent, and writing does not change what comes.
module _ {Sock Net : Type 0} (close : Sock → Sock) (patience : Sock → ℕ) (p : ℕ)
    (calm : (s : Sock) → patience s ≤ p) (sent incoming : Sock → List ℕ)
    (write : Sock → List ℕ → Outcome ℕ × Sock) (read : Sock → ℕ → Outcome (List ℕ) × Sock)
    (writes : (s : Sock) (buf : List ℕ) → Wrote sent patience s buf (write s buf))
    (reads : (s : Sock) (len : ℕ) → Got incoming patience s len (read s len))
    (takes : (s : Sock) (b : ℕ) (bs : List ℕ) → Takes (write s (b ∷ bs)))
    (gives : (s : Sock) (len : ℕ) → Gives (incoming s) (read s (suc len)))
    (close_sent : (s : Sock) → sent (close s) ≡ sent s)
    (close_incoming : (s : Sock) → incoming (close s) ≡ incoming s)
    (write_incoming : (s : Sock) (buf : List ℕ) → incoming (write s buf).1 ≡ incoming s)
    (read_sent : (s : Sock) (len : ℕ) → sent (read s len).1 ≡ sent s) (pack : MessageT → List ℕ)
    (unpack : List ℕ → Option MessageT)
    (network_send_receive : Net → MessageT → M (Option MessageT × Net)) where
  receive_sent :
      (n : ℕ) (s t : Sock) (o : Option MessageT) (h h' : Heap)
      → network_receive close read unpack n s h ≡ some (some (o, t), h')
      → sent t ≡ sent s
  receive_sent n s t o h h' run =
      subst (Left sent close close_sent (sent s)) run
        (network_receive-Left sent close close_sent read read_sent unpack n s h)

  send_incoming :
      (n : ℕ) (msg : MessageT) (s t : Sock) (r : ℤ) (h h' : Heap)
      → network_send close write pack n (some msg) s h ≡ some (some (r, t), h')
      → incoming t ≡ incoming s
  send_incoming n msg s t r h h' run =
      subst (Left incoming close close_incoming (incoming s)) run
        (network_send-Left incoming close close_incoming write write_incoming pack n msg s h)

  -- With the frame of a request in front of the stream, a turn takes it off and sends the frame of the
  -- reply, and the loop goes on.
  pub client_turn_lem :
      (n : ℕ) (clock : Outside) (msg reply : MessageT) (bytes after : List ℕ) (sock : Sock)
      (s : Server Net) (P : Server Net → Type 0) (h : Heap)
      → unpack bytes ≡ some msg
      → length bytes < 2 ^ 16
      → p + length bytes + 2 < n
      → p + length (pack reply) + 2 < n
      → incoming sock ≡ frame bytes ++ after
      → IsAmple h
      → ((h₁ : Heap)
          → IsAmple h₁
          → (s' : Server Net) × (h₂ : Heap) × (invoke network_send_receive clock (some msg) s h₁
              ≡ some ((pos 0, some reply, s'), h₂))
            × P s'
            × IsAmple h₂)
      → (last : Sock) × (s' : Server Net) × (h' : Heap) × (client_turn close write pack read unpack
            network_send_receive n clock sock s h
          ≡ some (some (true, last, s'), h'))
        × P s'
        × IsAmple h'
        × (incoming last ≡ after)
        × (sent last ≡ sent sock ++ frame (pack reply))
  unfolding client_turn answer_message replied
  client_turn_lem n clock msg reply bytes after sock s P h parses small lt lt' front full answers =
      let (t, got, rest) =
        network_receive_works close patience p calm sent incoming write read writes reads takes
          gives pack unpack n msg bytes after sock h parses small lt front full in
      let (s', h₂, run, holds, full₂) = answers (grown h 1 1) full in
      let (u, wrote, behind) =
        network_send_works close patience p calm sent incoming write read writes reads takes gives
          pack unpack n reply t h₂ lt' full₂ in
      (
        u,
        s',
        grown h₂ 1 1,
        ground (arith, got, run, wrote),
        holds,
        full₂,
        send_incoming n reply t u (pos 0) h₂ (grown h₂ 1 1) wrote ∙ rest,
        behind
            ∙ ap (λ x. x ++ frame (pack reply))
                (receive_sent n sock t (some msg) h (grown h 1 1) got),
      )

  -- On a stream that is over, a turn ends the loop.
  pub client_turn-end :
      (n : ℕ) (clock : Outside) (sock : Sock) (s : Server Net) (h : Heap)
      → p + 2 < n
      → incoming sock ≡ []
      → (last : Sock) × (client_turn close write pack read unpack network_send_receive n clock sock
            s h
          ≡ some (some (false, last, s), h))
        × (sent last ≡ sent sock)
  unfolding client_turn answer_message
  client_turn-end n clock sock s h lt empty =
      let (t, run) =
        network_receive-end close patience p calm incoming read reads unpack n sock h lt empty in
      (t, ground (arith, run), receive_sent n sock t none h h run)
