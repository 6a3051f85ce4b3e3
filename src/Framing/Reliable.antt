-- ===== src/Framing/Reliable.antt =====
-- `network_send` and `network_receive` on sockets whose calls do not fail.
use kv_storage_service.Common.{
  ℕ, suc, ◌+◌, ◌^◌, ◌<◌, ◌≤◌, ◌≡◌, sym, ap, ◌∙◌, Option, none, some, List, ◌∷◌, ◌++◌, ℤ, pos,
  length, arith,
}
use mathlib.Core.List.{append_assoc, append_cancel_left}
use kv_storage_service.Machine.{Heap, IsAmple, grown, malloc, free}
use kv_storage_service.Message.{MessageT}
use kv_storage_service.Transfer.{Outcome}
use kv_storage_service.Transfer.Writes.{Wrote}
use kv_storage_service.Transfer.Reads.{Got}
use kv_storage_service.Transfer.Reliable.{Takes, Gives, write_works, read_works}
use kv_storage_service.Framing.{
  htons, Sent, sent_all, network_send, got_all, unpacked, network_receive,
}
use kv_storage_service.Framing.RoundTrip.{frame, ntohs-htons}

abbrev sent_by : {Sock : Type 0} → ℤ × Sock → Option (Sent Sock × Heap) → ℤ × Sock
sent_by d none = d
sent_by d (some (none, h)) = d
sent_by d (some (some r, h)) = r

-- A run has one result.
same_sent :
    {Sock : Type 0} {o : Option (Sent Sock × Heap)} {r r' : ℤ × Sock} {h k : Heap}
    → o ≡ some (some r, h)
    → o ≡ some (some r', k)
    → r ≡ r'
same_sent {r = r} e f = ap (sent_by r) (sym e ∙ f)

module _ {Sock : Type 0} (close : Sock → Sock) (patience : Sock → ℕ) (p : ℕ)
    (calm : (s : Sock) → patience s ≤ p) (sent incoming : Sock → List ℕ)
    (write : Sock → List ℕ → Outcome ℕ × Sock) (read : Sock → ℕ → Outcome (List ℕ) × Sock)
    (writes : (s : Sock) (buf : List ℕ) → Wrote sent patience s buf (write s buf))
    (reads : (s : Sock) (len : ℕ) → Got incoming patience s len (read s len))
    (takes : (s : Sock) (b : ℕ) (bs : List ℕ) → Takes (write s (b ∷ bs)))
    (gives : (s : Sock) (len : ℕ) → Gives (incoming s) (read s (suc len)))
    (pack : MessageT → List ℕ) (unpack : List ℕ → Option MessageT) where
  pub network_send_works :
      (n : ℕ) (msg : MessageT) (s : Sock) (h : Heap)
      → p + length (pack msg) + 2 < n
      → IsAmple h
      → (t : Sock) × (network_send close write pack n (some msg) s h
          ≡ some (some (pos 0, t), grown h 1 1))
        × (sent t ≡ sent s ++ frame (pack msg))
  unfolding network_send sent_all malloc free
  network_send_works n msg s h lt full =
      let bytes = pack msg in
      let (t, first, e) =
        write_works sent patience p calm write writes takes n (htons (length bytes)) s
          (omega arith) in
      let (u, second, e') =
        write_works sent patience p calm write writes takes n bytes t (omega arith) in
      (
        u,
        ground (arith, full, first, second),
        e' ∙ ap (λ x. x ++ bytes) e ∙ append_assoc (sent s) (htons (length bytes)) bytes,
      )

  pub network_receive_works :
      (n : ℕ) (msg : MessageT) (bytes after : List ℕ) (s : Sock) (h : Heap)
      → unpack bytes ≡ some msg
      → length bytes < 2 ^ 16
      → p + length bytes + 2 < n
      → incoming s ≡ frame bytes ++ after
      → IsAmple h
      → (t : Sock) × (network_receive close read unpack n s h
          ≡ some (some (some msg, t), grown h 1 1))
        × (incoming t ≡ after)
  unfolding network_receive got_all malloc unpacked free
  network_receive_works n msg bytes after s h parses small lt front full =
      let len = length bytes in
      let (t, first, left) =
        read_works incoming patience p calm read reads gives n (htons len) (bytes ++ after) s
          (omega arith) (front ∙ append_assoc (htons len) bytes after) in
      let (u, second, left') =
        read_works incoming patience p calm read reads gives n bytes after t (omega arith) left in
      (
        u,
        rw first (rw (full, ntohs-htons len small, second) (ground (arith, parses, second))),
        left',
      )

  -- Where the sockets do what read and write document, are interrupted at most p times and no call
  -- fails, malloc refuses nothing at both ends, the message is read back from its bytes, of which
  -- there are fewer than 65536, the fuel is enough for its frame, and what comes at the end w starts
  -- with what one call of `network_send` sends: the call returns 0, and `network_receive` at w
  -- returns exactly the message and leaves what comes after.
  pub network_receive-network_send :
      (n : ℕ) (msg : MessageT) (after : List ℕ) (s t w : Sock) (r : ℤ) (h h₁ k : Heap)
      → unpack (pack msg) ≡ some msg
      → length (pack msg) < 2 ^ 16
      → p + length (pack msg) + 2 < n
      → IsAmple h
      → IsAmple k
      → network_send close write pack n (some msg) s h ≡ some (some (r, t), h₁)
      → sent t ++ after ≡ sent s ++ incoming w
      → (r ≡ pos 0)
        × ((v : Sock) × (network_receive close read unpack n w k
              ≡ some (some (some msg, v), grown k 1 1))
            × (incoming v ≡ after))
  network_receive-network_send n msg after s t w r h h₁ k parses small lt full full' run wire =
      let (u, sends, behind) = network_send_works n msg s h lt full in
      let same = same_sent run sends in
      let front : incoming w ≡ frame (pack msg) ++ after =
        append_cancel_left (sent s) (incoming w) (frame (pack msg) ++ after) (
          sym wire
          ∙ ap (λ x. sent x.1 ++ after) same
          ∙ ap (λ x. x ++ after) behind
          ∙ append_assoc (sent s) (frame (pack msg)) after) in
      (
        ap (λ x. x.0) same,
        network_receive_works n msg (pack msg) after w k parses small lt front full',
      )
