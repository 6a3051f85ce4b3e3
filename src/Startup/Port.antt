-- ===== src/Startup/Port.antt =====
-- The port of a server: `main` of source/server_hashtable.c makes a short of it, and
-- server_network_init of source/server_network.c the 16 bits of an address.
use kv_storage_service.Common.{
  ℕ, ◌^◌, ◌<◌, ltb, ◌≡◌, ◌⊎◌, inl, inr, true, Bool-cases, Option, none, some, Option-cases, List,
  [], ◌∷◌, pos, arith,
}
use kv_storage_service.Listening.{System, to_port, prepared, server_network_init}
use kv_storage_service.Startup.{short_of}

to_port-short_of : (port : ℕ) → port < 2 ^ 16 → to_port (short_of (pos port)) ≡ port
to_port-short_of port lt = elim (Bool-cases (ltb port (2 ^ 15))) [
  | inl small ↦ ground (arith, small)
  | inr large ↦ ground (arith, large)
]

-- the sockets that there are to close
abbrev pub opened : {Sock : Type 0} → Option Sock → List Sock
opened none = []
opened (some s) = s ∷ []

module _ {Sock : Type 0} (system : System Sock) where
  prepared_lem :
      (port : ℕ) (s : Sock)
      → port < 2 ^ 16
      → ((prepared system (short_of (pos port)) s ≡ (some s, []))
          × (system.bind s port ≡ true)
          × (system.listen s 10 ≡ true))
        ⊎ (prepared system (short_of (pos port)) s ≡ (none, s ∷ []))
  unfolding prepared
  prepared_lem port s lt = rw (to_port-short_of port lt) (elim (Bool-cases (system.setsockopt s)) [
    | inr e ↦ inr (ground (arith, e))
    | inl e ↦ elim (Bool-cases (system.bind s port)) [
      | inr e' ↦ inr (ground (arith, e, e'))
      | inl e' ↦ elim (Bool-cases (system.listen s 10)) [
        | inr e'' ↦ inr (ground (arith, e, e', e''))
        | inl e'' ↦ inl (ground (arith, e, e', e''), e', e'')
      ]
    ]
  ])

  -- For a port below 2^16, also where the short that is made of it is negative: either
  -- `server_network_init` returns a new socket that is bound to this very port and listens, and has
  -- closed none; or it returns -1 and has closed the socket that it opened, if it opened one.
  pub server_network_init_lem :
      (port : ℕ)
      → port < 2 ^ 16
      → ((s : Sock) × (system.new_socket ≡ some s)
          × (server_network_init system (short_of (pos port)) ≡ (some s, []))
          × (system.bind s port ≡ true)
          × (system.listen s 10 ≡ true))
        ⊎ (server_network_init system (short_of (pos port)) ≡ (none, opened system.new_socket))
  unfolding server_network_init
  server_network_init_lem port lt = elim (Option-cases system.new_socket) [
    | inl e ↦ inr (ground (arith, e))
    | inr (s, e) ↦ elim (prepared_lem port s lt) [
      | inl (run, bound, listens) ↦ inl (s, e, ground (arith, e, run), bound, listens)
      | inr run ↦ inr (ground (arith, e, run))
    ]
  ]
