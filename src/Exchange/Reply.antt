-- ===== src/Exchange/Reply.antt =====
-- What `network_send_receive` returns is the reply to its request, on sockets whose calls do not fail.
use kv_storage_service.Common.{
  ℕ, ◌+◌, ◌^◌, ◌<◌, ◌≤◌, ◌≡◌, ap, ◌∙◌, Option, some, List, ◌∷◌, ◌++◌, suc, length, arith,
}
use mathlib.Core.List.{append_assoc}
use kv_storage_service.Machine.{Heap, IsAmple, grown, released, malloc, free}
use kv_storage_service.Message.{MessageT}
use kv_storage_service.Transfer.{Outcome}
use kv_storage_service.Transfer.Writes.{Wrote}
use kv_storage_service.Transfer.Reads.{Got}
use kv_storage_service.Transfer.Reliable.{Takes, Gives, write_works, read_works}
use kv_storage_service.Framing.{htons, unpacked}
use kv_storage_service.Framing.RoundTrip.{frame, ntohs-htons}
use kv_storage_service.Exchange.{wrote_part, read_part, read_reply, network_send_receive}

module _ {Sock : Type 0} (close : Sock → Sock) (patience : Sock → ℕ) (p : ℕ)
    (calm : (s : Sock) → patience s ≤ p) (sent incoming : Sock → List ℕ)
    (write : Sock → List ℕ → Outcome ℕ × Sock) (read : Sock → ℕ → Outcome (List ℕ) × Sock)
    (writes : (s : Sock) (buf : List ℕ) → Wrote sent patience s buf (write s buf))
    (reads : (s : Sock) (len : ℕ) → Got incoming patience s len (read s len))
    (takes : (s : Sock) (b : ℕ) (bs : List ℕ) → Takes (write s (b ∷ bs)))
    (gives : (s : Sock) (len : ℕ) → Gives (incoming s) (read s (suc len)))
    (pack : MessageT → List ℕ) (unpack : List ℕ → Option MessageT) where
  read_reply_works :
      (n : ℕ) (reply : MessageT) (request bytes after : List ℕ) (s : Sock) (h : Heap)
      → unpack bytes ≡ some reply
      → length bytes < 2 ^ 16
      → p + length bytes + 2 < n
      → incoming s ≡ frame bytes ++ after
      → IsAmple h
      → (t : Sock) × (read_reply close read unpack n request s h
          ≡ some (some (some reply, t), released (grown h 1 1) 1))
        × (incoming t ≡ after)
  unfolding read_reply read_part malloc unpacked free
  read_reply_works n reply request bytes after s h parses small lt front full =
      let len = length bytes in
      let (t, first, left) =
        read_works incoming patience p calm read reads gives n (htons len) (bytes ++ after) s
          (omega arith) (front ∙ append_assoc (htons len) bytes after) in
      let (u, second, left') =
        read_works incoming patience p calm read reads gives n bytes after t (omega arith) left in
      (
        u,
        rw first (rw (full, ntohs-htons len small, second) (ground (arith, parses, second))),
        left',
      )

  -- Where the other side answers a request that it has been sent in full by the frame of the reply.
  pub network_send_receive_works :
      (n : ℕ) (msg reply : MessageT) (bytes after : List ℕ) (s : Sock) (h : Heap)
      → unpack bytes ≡ some reply
      → length bytes < 2 ^ 16
      → p + length (pack msg) + length bytes + 2 < n
      → ((t : Sock) → sent t ≡ sent s ++ frame (pack msg) → incoming t ≡ frame bytes ++ after)
      → IsAmple h
      → (t : Sock) × (network_send_receive close read unpack write pack n (some msg) s h
          ≡ some (some (some reply, t), grown h 2 2))
        × (incoming t ≡ after)
  unfolding network_send_receive wrote_part malloc
  network_send_receive_works n msg reply bytes after s h parses small lt answers full =
      let request = pack msg in
      let (t, first, e) =
        write_works sent patience p calm write writes takes n (htons (length request)) s
          (omega arith) in
      let (u, second, e') =
        write_works sent patience p calm write writes takes n request t (omega arith) in
      let front =
        answers u (
          e' ∙ ap (λ x. x ++ request) e ∙ append_assoc (sent s) (htons (length request)) request) in
      let (w, reply_run, left) =
        read_reply_works n reply request bytes after u (grown h 1 0) parses small (omega arith)
          front full in
      (w, ground (arith, full, first, second, reply_run), left)
