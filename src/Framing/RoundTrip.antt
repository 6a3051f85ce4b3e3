-- ===== src/Framing/RoundTrip.antt =====
-- The frame of a message on the wire, and `network_receive` on a stream that is over.
use kv_storage_service.Common.{
  ℕ, ◌+◌, ◌^◌, ◌<◌, ◌≤◌, ◌≡◌, refl, sym, ap, ◌∙◌, ◌⊎◌, inl, inr, Option, none, some, List, [], ◌++◌,
  ℤ, pos, minus_one, length, length-append, not, if◌then◌else◌, arith,
}
use kv_storage_service.Machine.{Heap, M, pure, ◌>>=◌, malloc}
use kv_storage_service.Message.{MessageT}
use kv_storage_service.Transfer.{Outcome, read_all}
use kv_storage_service.Transfer.Reads.{Got, read_all_lem}
use kv_storage_service.Framing.{htons, ntohs, Received, got_all, unpacked, network_receive}

abbrev pub frame : List ℕ → List ℕ
frame bytes = htons (length bytes) ++ bytes

pub ntohs-htons : (len : ℕ) → len < 2 ^ 16 → ntohs (htons len) ≡ len
ntohs-htons len lt = omega arith

module _ {Sock : Type 0} (close : Sock → Sock) (patience : Sock → ℕ) (p : ℕ)
    (calm : (s : Sock) → patience s ≤ p) where
  module _ (incoming : Sock → List ℕ) (read : Sock → ℕ → Outcome (List ℕ) × Sock)
      (documented : (s : Sock) (len : ℕ) → Got incoming patience s len (read s len))
      (unpack : List ℕ → Option MessageT) where
    got_short :
        (len : ℕ) (r : ℤ) (buf : List ℕ) (s : Sock) (rest : List ℕ → Sock → M (Received Sock))
        (h : Heap)
        → 0 < len
        → (r ≡ minus_one) ⊎ (r ≡ pos 0)
        → (t : Sock) × (got_all close len (some (r, buf, s)) rest h ≡ some (some (none, t), h))
    unfolding got_all
    got_short len r buf s rest h lt (inl e) = (close s, rw e refl)
    got_short len r buf s rest h lt (inr e) = (s, rw e (ground arith))

    -- Where no byte is left on the stream, `network_receive` returns NULL.
    pub network_receive-end :
        (n : ℕ) (s : Sock) (h : Heap)
        → p + 2 < n
        → incoming s ≡ []
        → (t : Sock) × (network_receive close read unpack n s h ≡ some (some (none, t), h))
    unfolding network_receive
    network_receive-end n s h lt empty =
        let rest : List ℕ → Sock → M (Received Sock) = λ size t. (do
          granted ← malloc
          if not granted
              then pure (some (none, t))
              else got_all close (ntohs size) (read_all read n (ntohs size) t)
                  (λ buf u. unpacked close read unpack buf (unpack buf) u)) in
        let (r, buf, t, run, (whole, ended)) =
          read_all_lem incoming patience read documented n 2 s (omega (arith, calm s)) in
        elim ended [
          | inl (e, full_buf) ↦ absurd (
              let count = ap (length {A = ℕ}) (sym empty ∙ whole) in
              omega (arith, count, full_buf, length-append buf (incoming t)))
          | inr (bad, less) ↦
              let (u, stops) = got_short 2 r buf t rest h (omega arith) bad in (u, rw run stops)
        ]
