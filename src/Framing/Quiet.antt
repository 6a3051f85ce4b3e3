-- ===== src/Framing/Quiet.antt =====
-- What a transfer over a socket leaves alone: f is what is sent, where reading does not change it, or
-- what comes, where writing does not.
use kv_storage_service.Common.{
  ℕ, zero, suc, minus_one, Bool, true, false, ◌≡◌, refl, ◌∙◌, Option, none, some, List, [], ◌∷◌,
  ◌++◌, ◌-◌, ℤ, length, drop, eq_int, is_zero, pos, not, Bool-cases, inl, inr, if◌then◌else◌,
}
use kv_storage_service.Machine.{Heap, M, malloc, free, answer, asked, pure, ◌>>◌}
use kv_storage_service.Message.{MessageT}
use kv_storage_service.Transfer.{
  Outcome, interrupted, failed, moved, write_turn, write_rest, write_all, read_turn, read_rest,
  read_all,
}
use kv_storage_service.Framing.{
  htons, ntohs, Sent, Received, sent_all, network_send, got_all, unpacked, network_receive,
}

module _ {Sock : Type 0} (f : Sock → List ℕ) (close : Sock → Sock)
    (closes : (s : Sock) → f (close s) ≡ f s) where
  -- The socket that is left has v as before.
  abbrev pub Left : {X : Type 0} → List ℕ → Option (Option (X × Sock) × Heap) → Type 0
  Left v none = Unit
  Left v (some (none, h)) = Unit
  Left v (some (some (x, t), h)) = f t ≡ v

  abbrev Leaves : {X : Type 0} → List ℕ → M (Option (X × Sock)) → Type 0
  Leaves v m = (h : Heap) → Left v (m h)

  guarded :
      {X : Type 0} (b : Bool) (without within : M (Option (X × Sock))) (v : List ℕ) (h : Heap)
      → Left v (without h)
      → Left v (within h)
      → Left v ((if not b then without else within) h)
  guarded false without within v h l r = l
  guarded true without within v h l r = r

  module _ (write : Sock → List ℕ → Outcome ℕ × Sock)
      (quiet : (s : Sock) (buf : List ℕ) → f (write s buf).1 ≡ f s) where
    abbrev WriteLeft : List ℕ → Option (ℤ × Sock) → Type 0
    WriteLeft v none = Unit
    WriteLeft v (some (r, t)) = f t ≡ v

    write_turn-Left :
        (again : List ℕ → Sock → Option (ℤ × Sock)) (b : ℕ) (bs : List ℕ) (o : Outcome ℕ × Sock)
        (v : List ℕ)
        → f o.1 ≡ v
        → ((buf : List ℕ) (s : Sock) → f s ≡ v → WriteLeft v (again buf s))
        → WriteLeft v (write_turn again b bs o)
    unfolding write_turn
    write_turn-Left again b bs (interrupted, s) v e left = left (b ∷ bs) s e
    write_turn-Left again b bs (failed, s) v e left = e
    write_turn-Left again b bs (moved zero, s) v e left = e
    write_turn-Left again b bs (moved (suc k), s) v e left = left (drop k bs) s e

    write_rest-Left :
        (n size : ℕ) (buf : List ℕ) (s : Sock) (v : List ℕ)
        → f s ≡ v
        → WriteLeft v (write_rest write n size buf s)
    unfolding write_rest
    write_rest-Left zero size buf s v e = tt
    write_rest-Left (suc n) size [] s v e = e
    write_rest-Left (suc n) size (b ∷ bs) s v e =
        write_turn-Left (write_rest write n size) b bs (write s (b ∷ bs)) v (quiet s (b ∷ bs) ∙ e)
          (λ buf t. write_rest-Left n size buf t v)

    write_all-Left :
        (n : ℕ) (buf : List ℕ) (s : Sock) (v : List ℕ)
        → f s ≡ v
        → WriteLeft v (write_all write n buf s)
    unfolding write_all
    write_all-Left n buf s v e = write_rest-Left n (length buf) buf s v e

    sent_all-Left :
        (len : ℕ) (o : Option (ℤ × Sock)) (rest : Sock → M (Sent Sock)) (v : List ℕ)
        → WriteLeft v o
        → ((t : Sock) → f t ≡ v → Leaves v (rest t))
        → Leaves v (sent_all close len o rest)
    unfolding sent_all
    sent_all-Left len none rest v e left h = tt
    sent_all-Left len (some (r, t)) rest v e left h = elim (Bool-cases (eq_int r (pos len))) [
      | inl same ↦ rw same (left t e h)
      | inr other ↦ rw other (closes t ∙ e)
    ]

    pub network_send-Left :
        (pack : MessageT → List ℕ) (n : ℕ) (msg : MessageT) (s : Sock) (h : Heap)
        → Left (f s) (network_send close write pack n (some msg) s h)
    unfolding network_send malloc free
    network_send-Left pack n msg s h =
        let bytes = pack msg in
        let finish : Sock → M (Sent Sock) = λ u. free (some bytes) >> pure (some (pos 0, u)) in
        let second : Sock → M (Sent Sock) =
          λ t. sent_all close (length bytes) (write_all write n bytes t) finish in
        guarded (answer h.answers) (pure (some (minus_one, s)))
          (sent_all close 2 (write_all write n (htons (length bytes)) s) second) (f s) (asked h)
          refl
          (sent_all-Left 2 (write_all write n (htons (length bytes)) s) second (f s)
            (write_all-Left n (htons (length bytes)) s (f s) refl)
            (λ t e.
              sent_all-Left (length bytes) (write_all write n bytes t) finish (f s)
                (write_all-Left n bytes t (f s) e) (λ u e' h'. e'))
            (asked h))

  module _ (read : Sock → ℕ → Outcome (List ℕ) × Sock)
      (quiet : (s : Sock) (len : ℕ) → f (read s len).1 ≡ f s) where
    abbrev ReadLeft : List ℕ → Option (ℤ × List ℕ × Sock) → Type 0
    ReadLeft v none = Unit
    ReadLeft v (some (r, buf, t)) = f t ≡ v

    read_turn-Left :
        (again : ℕ → List ℕ → Sock → Option (ℤ × List ℕ × Sock)) (len : ℕ) (buf : List ℕ)
        (o : Outcome (List ℕ) × Sock) (v : List ℕ)
        → f o.1 ≡ v
        → ((k : ℕ) (held : List ℕ) (s : Sock) → f s ≡ v → ReadLeft v (again k held s))
        → ReadLeft v (read_turn again len buf o)
    unfolding read_turn
    read_turn-Left again len buf (interrupted, s) v e left = left len buf s e
    read_turn-Left again len buf (failed, s) v e left = e
    read_turn-Left again len buf (moved [], s) v e left = e
    read_turn-Left again len buf (moved (b ∷ bs), s) v e left =
        left (len - length (b ∷ bs)) (buf ++ b ∷ bs) s e

    read_rest-Left :
        (n size len : ℕ) (buf : List ℕ) (s : Sock) (v : List ℕ)
        → f s ≡ v
        → ReadLeft v (read_rest read n size len buf s)
    unfolding read_rest
    read_rest-Left zero size len buf s v e = tt
    read_rest-Left (suc n) size zero buf s v e = e
    read_rest-Left (suc n) size (suc len) buf s v e =
        read_turn-Left (read_rest read n size) (suc len) buf (read s (suc len)) v
          (quiet s (suc len) ∙ e) (λ k held t. read_rest-Left n size k held t v)

    read_all-Left :
        (n len : ℕ) (s : Sock) (v : List ℕ) → f s ≡ v → ReadLeft v (read_all read n len s)
    unfolding read_all
    read_all-Left n len s v e = read_rest-Left n len len [] s v e

    got_all-Left :
        (len : ℕ) (o : Option (ℤ × List ℕ × Sock)) (rest : List ℕ → Sock → M (Received Sock))
        (v : List ℕ)
        → ReadLeft v o
        → ((buf : List ℕ) (t : Sock) → f t ≡ v → Leaves v (rest buf t))
        → Leaves v (got_all close len o rest)
    unfolding got_all
    got_all-Left len none rest v e left h = tt
    got_all-Left len (some (r, buf, t)) rest v e left h = elim (Bool-cases (eq_int r (pos len))) [
      | inl same ↦ rw same (left buf t e h)
      | inr other ↦ rw other (elim (Bool-cases (is_zero r)) [
        | inl closed ↦ rw closed e
        | inr still ↦ rw still (closes t ∙ e)
      ])
    ]

    module _ (unpack : List ℕ → Option MessageT) where
      unpacked-Left :
          (buf : List ℕ) (o : Option MessageT) (s : Sock) (v : List ℕ)
          → f s ≡ v
          → Leaves v (unpacked close read unpack buf o s)
      unfolding unpacked free
      unpacked-Left buf none s v e h = e
      unpacked-Left buf (some msg) s v e h = e

      pub network_receive-Left :
          (n : ℕ) (s : Sock) → Leaves (f s) (network_receive close read unpack n s)
      unfolding network_receive malloc
      network_receive-Left n s =
          let whole : List ℕ → Sock → M (Received Sock) =
            λ buf u. unpacked close read unpack buf (unpack buf) u in
          let body : List ℕ → Sock → M (Received Sock) =
            λ size t. got_all close (ntohs size) (read_all read n (ntohs size) t) whole in
          let behind : List ℕ → Sock → M (Received Sock) = λ size t h.
            (if not (answer h.answers) then pure (some (none, t)) else body size t) (asked h) in
          got_all-Left 2 (read_all read n 2 s) behind (f s) (read_all-Left n 2 s (f s) refl)
            (λ size t e h.
              guarded (answer h.answers) (pure (some (none, t))) (body size t) (f s) (asked h) e (
                got_all-Left (ntohs size) (read_all read n (ntohs size) t) whole (f s)
                  (read_all-Left n (ntohs size) t (f s) e)
                  (λ buf u. unpacked-Left buf (unpack buf) u (f s)) (asked h)))
