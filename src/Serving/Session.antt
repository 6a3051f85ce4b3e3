-- ===== src/Serving/Session.antt =====
-- The whole of `thread_client` of source/server_network.c for a client that sends some requests and
-- then nothing more, where malloc refuses nothing and the calls of its socket do not fail.
use kv_storage_service.Common.{
  ℕ, zero, suc, ◌+◌, ◌^◌, ◌<◌, ◌≤◌, ◌≡◌, refl, sym, ap, ◌∙◌, Option, some, List, [], ◌∷◌, ◌++◌, pos,
  ◌+ℤ◌, length, arith,
}
use mathlib.Core.List.{append_assoc, append-nil}
use kv_storage_service.Machine.{Heap, M, int_max, IsAmple, free, released}
use kv_storage_service.Stats.{Stats, update_clients_connect, update_clients_disconnect}
use kv_storage_service.Message.{MessageT}
use kv_storage_service.Transfer.{Outcome}
use kv_storage_service.Transfer.Writes.{Wrote}
use kv_storage_service.Transfer.Reads.{Got}
use kv_storage_service.Transfer.Reliable.{Takes, Gives}
use kv_storage_service.Framing.RoundTrip.{frame}
use kv_storage_service.Skeleton.{Server, Outside}
use kv_storage_service.Invoke.{invoke}
use kv_storage_service.Serving.{client_loop, hang_up, thread_client}
use kv_storage_service.Serving.Turn.{client_turn_lem, client_turn-end}

-- A request as its bytes, with what the server replies and how it may be left.
pub record Request (Net : Type 0) : Type 1 where
  pub bytes : List ℕ
  pub msg : MessageT
  pub reply : MessageT
  pub Leaves : Server Net → Type 0

-- the requests one behind the other
abbrev pub stream : {Net : Type 0} → List (Request Net) → List ℕ
stream [] = []
stream (r ∷ rs) = frame r.bytes ++ stream rs

-- the replies one behind the other
abbrev pub replies : {Net : Type 0} → (MessageT → List ℕ) → List (Request Net) → List ℕ
replies pack [] = []
replies pack (r ∷ rs) = frame (pack r.reply) ++ replies pack rs

-- the statistics with n clients
abbrev pub with_clients : {Net : Type 0} → Server Net → Stats → ℕ → Server Net
with_clients s stats n = record s { stats = some (record stats { n_clients = pos n }) }

-- The server with n clients, in whatever statistics.
abbrev pub HasClients : {Net : Type 0} → ℕ → Server Net → Type 0
HasClients n s = (stats : Stats) × ((s.stats ≡ some stats) × (stats.n_clients ≡ pos n))

-- What holds of the server after the last of the requests, if P holds before the first.
abbrev pub LeavesLast :
    {Net : Type 0} → (Server Net → Type 0) → List (Request Net) → Server Net → Type 0
LeavesLast P [] = P
LeavesLast P (r ∷ rs) = LeavesLast r.Leaves rs

module _ {Sock Net : Type 0} (close : Sock → Sock) (patience : Sock → ℕ) (p : ℕ)
    (calm : (s : Sock) → patience s ≤ p) (sent incoming : Sock → List ℕ)
    (write : Sock → List ℕ → Outcome ℕ × Sock) (read : Sock → ℕ → Outcome (List ℕ) × Sock)
    (writes : (s : Sock) (buf : List ℕ) → Wrote sent patience s buf (write s buf))
    (reads : (s : Sock) (len : ℕ) → Got incoming patience s len (read s len))
    (takes : (s : Sock) (b : ℕ) (bs : List ℕ) → Takes (write s (b ∷ bs)))
    (gives : (s : Sock) (len : ℕ) → Gives (incoming s) (read s (suc len)))
    (close_sent : (s : Sock) → sent (close s) ≡ sent s)
    (close_incoming : (s : Sock) → incoming (close s) ≡ incoming s)
    (write_incoming : (s : Sock) (buf : List ℕ) → incoming (write s buf).1 ≡ incoming s)
    (read_sent : (s : Sock) (len : ℕ) → sent (read s len).1 ≡ sent s) (pack : MessageT → List ℕ)
    (unpack : List ℕ → Option MessageT)
    (network_send_receive : Net → MessageT → M (Option MessageT × Net)) (fuel : ℕ)
    (clocks : ℕ → Outside) (clients : ℕ) where
  -- A message of less than 64 KiB that the server answers where P holds of it and malloc refuses
  -- nothing; the fuel of a transfer is enough for both frames. The number of clients is left alone.
  abbrev pub IsAnswered : Outside → (Server Net → Type 0) → Request Net → Type 0
  IsAnswered clock P r =
      (unpack r.bytes ≡ some r.msg)
      × (length r.bytes < 2 ^ 16)
      × (p + length r.bytes + 2 < fuel)
      × (p + length (pack r.reply) + 2 < fuel)
      × ((s : Server Net) (h₁ : Heap)
          → P s
          → HasClients (suc clients) s
          → IsAmple h₁
          → (s' : Server Net) × (h₂ : Heap) × (invoke network_send_receive clock (some r.msg) s h₁
              ≡ some ((pos 0, some r.reply, s'), h₂))
            × (r.Leaves s' × HasClients (suc clients) s')
            × IsAmple h₂)

  -- The requests are answered one after the other, from the n-th turn to the last on.
  abbrev pub AreAnswered : ℕ → (Server Net → Type 0) → List (Request Net) → Type 0
  AreAnswered n P [] = Unit
  AreAnswered zero P (r ∷ rs) = Unit
  AreAnswered (suc n) P (r ∷ rs) = IsAnswered (clocks n) P r × AreAnswered n r.Leaves rs

  client_loop_lem :
      (n : ℕ) (s : Server Net) (P : Server Net → Type 0) (rs : List (Request Net)) (sock : Sock)
      (h : Heap)
      → length rs < n
      → p + 2 < fuel
      → AreAnswered n P rs
      → P s
      → HasClients (suc clients) s
      → incoming sock ≡ stream rs
      → IsAmple h
      → (last : Sock) × (end : Server Net) × (h' : Heap) × (client_loop close write pack read unpack
            network_send_receive fuel n clocks sock s h
          ≡ some (some (last, end), h'))
        × HasClients (suc clients) end
        × LeavesLast P rs end
        × (sent last ≡ sent sock ++ replies pack rs)
  unfolding client_loop
  client_loop_lem zero s P rs sock h lt enough a holds c front full = absurd (omega arith)
  client_loop_lem (suc n) s P [] sock h lt enough a holds c front full =
      let (last, run, same) =
        client_turn-end close patience p calm sent incoming write read writes reads takes gives
          close_sent close_incoming write_incoming read_sent pack unpack network_send_receive fuel
          (clocks n) sock s h enough front in
      (last, s, h, ground (arith, run), c, holds, same ∙ sym (append-nil (sent sock)))
  client_loop_lem (suc n) s P (r ∷ rs) sock h lt enough (a, others) holds c front full =
      let (parses, small, room, room', answers) = a in
      let (t, left, h₁, run, (after, c'), full', rest, more) =
        client_turn_lem close patience p calm sent incoming write read writes reads takes gives
          close_sent close_incoming write_incoming read_sent pack unpack network_send_receive fuel
          (clocks n) r.msg r.reply r.bytes (stream rs) sock s
          (λ s'. r.Leaves s' × HasClients (suc clients) s') h parses small room room' front full
          (λ h₂ full₂. answers s h₂ holds c full₂) in
      let (last, end, h₂, runs, c'', final, whole) =
        client_loop_lem n left r.Leaves rs t h₁ (omega arith) enough others after c' rest full' in
      (
        last,
        end,
        h₂,
        ground (arith, run, runs),
        c'',
        final,
        whole
            ∙ ap (λ x. x ++ replies pack rs) more
            ∙ append_assoc (sent sock) (frame (pack r.reply)) (replies pack rs),
      )

  hang_up_lem :
      (last : Sock) (end : Server Net) (stats : Stats) (h : Heap)
      → clients < int_max
      → end.stats ≡ some stats
      → stats.n_clients ≡ pos (suc clients)
      → hang_up close write pack read unpack network_send_receive (some (last, end)) h
        ≡ some (some (close last, with_clients end stats clients), released h 1)
  unfolding hang_up update_clients_disconnect free ◌+ℤ◌
  hang_up_lem last end stats h lt e c = rw (e, c) (ground arith)

  -- A client sends the frames of some requests of less than 64 KiB and then nothing more. Where the
  -- socket does what read and write document, is interrupted at most p times and no call fails;
  -- where reading changes nothing of what is sent, writing nothing of what comes, and closing
  -- neither; where malloc refuses nothing; where `invoke` answers each request with its reply on any
  -- server that is as the one before left it, and leaves the number of clients alone; and where that
  -- number is below 2^31 - 1, the fuel is enough for each frame and there are more turns than
  -- requests: `thread_client` ends, and has sent exactly the frames of all replies, in the order of
  -- the requests. The socket is closed, and the server, with one client more while the thread runs,
  -- is as the last request left it, with as many clients as before.
  pub thread_client_lem :
      (n : ℕ) (s : Server Net) (P : Server Net → Type 0) (stats : Stats) (rs : List (Request Net))
      (sock : Sock) (h : Heap)
      → s.stats ≡ some stats
      → stats.n_clients ≡ pos clients
      → clients < int_max
      → length rs < n
      → p + 2 < fuel
      → incoming sock ≡ stream rs
      → AreAnswered n P rs
      → P (with_clients s stats (suc clients))
      → IsAmple h
      → (last : Sock) × (end : Server Net) × (stats' : Stats) × (h' : Heap) × (thread_client close
            write pack read unpack network_send_receive fuel n clocks sock s h
          ≡ some (some (close last, with_clients end stats' clients), h'))
        × (end.stats ≡ some stats')
        × LeavesLast P rs end
        × (sent last ≡ sent sock ++ replies pack rs)
  unfolding thread_client update_clients_connect ◌+ℤ◌
  thread_client_lem n s P stats rs sock h e c room lt enough front a holds full =
      let (last, end, h₁, run, (stats', (held, counted)), final, whole) =
        client_loop_lem n (with_clients s stats (suc clients)) P rs sock h lt enough a holds
          (record stats { n_clients = pos (suc clients) }, (refl, refl)) front full in
      (
        last,
        end,
        stats',
        released h₁ 1,
        rw (e, c) (ground (arith, run, hang_up_lem last end stats' h₁ room held counted)),
        held,
        final,
        whole,
      )
