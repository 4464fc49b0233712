-- ===== src/SocketSetup/Descriptors.antt =====
-- The descriptors that PynServerCreateTcpServer leaves open.
use tcpframe.Prelude.{
  ℕ, ◌≤◌, ◌≡◌, refl, sym, ap, ◌∙◌, Bool, true, false, Bool-cases, inl, inr, ltb, ◌==◌,
  if◌then◌else◌, List, Option, none, some, Option-cases, arith,
}
use tcpframe.Prelude.Int.{ℤ, pos, negsuc}
use tcpframe.Os.{Os, SockOpt, reuse_addr, Protocol, tcp}
use tcpframe.SocketSetup.{
  bind_and_listen, create_tcp_server, server_set_nonblock, server_set_tcp_reuseaddr,
}

-- Which descriptors the process has open: socket() opens one that was not, close() closes it, and the
-- other calls leave them.
pub record Descriptors (os : Os) : Type 0 where
  pub in_use : os.World → ℕ → Bool
  pub socket_free :
      (w : os.World) (p : Protocol) (fd : ℕ) (w' : os.World)
      → os.socket w p ≡ (some fd, w')
      → in_use w fd ≡ false
  pub socket_opens :
      (w : os.World) (p : Protocol) (fd : ℕ) (w' : os.World) (g : ℕ)
      → os.socket w p ≡ (some fd, w')
      → in_use w' g ≡ (if fd == g then true else in_use w g)
  pub socket_fails :
      (w : os.World) (p : Protocol) (w' : os.World) (g : ℕ)
      → os.socket w p ≡ (none, w')
      → in_use w' g ≡ in_use w g
  pub close_closes :
      (w : os.World) (fd g : ℕ) → in_use (os.close w fd) g ≡ (if fd == g then false else in_use w g)
  pub setsockopt_keeps :
      (w : os.World) (fd g : ℕ) (o : SockOpt) → in_use (os.setsockopt w fd o).1 g ≡ in_use w g
  pub set_nonblock_keeps :
      (w : os.World) (fd g : ℕ) → in_use (os.set_nonblock w fd).1 g ≡ in_use w g
  pub bind_keeps :
      (w : os.World) (fd addr port g : ℕ) → in_use (os.bind w fd addr port).1 g ≡ in_use w g
  pub listen_keeps : (w : os.World) (fd g : ℕ) → in_use (os.listen w fd).1 g ≡ in_use w g

module _ (os : Os) (laws : Descriptors os) (inet_aton : List ℕ → Option ℕ) where
  open laws use {in_use}

  -- The result is a descriptor that is open now, besides those of before, or -1 and none is left open.
  abbrev pub Tidy : os.World → ℤ × os.World → Type 0
  Tidy w (pos fd, w') =
      (in_use w fd ≡ false) × ((g : ℕ) → in_use w' g ≡ (if fd == g then true else in_use w g))
  Tidy w (negsuc n, w') = (g : ℕ) → in_use w' g ≡ in_use w g

  bind_and_listen-Tidy :
      (w v : os.World) (fd : ℕ) (ip : List ℕ) (port : ℕ)
      → in_use w fd ≡ false
      → ((g : ℕ) → in_use v g ≡ (if fd == g then true else in_use w g))
      → Tidy w (bind_and_listen os inet_aton v fd ip port)
  unfolding bind_and_listen
  bind_and_listen-Tidy w v fd ip port fresh here = elim (Option-cases (inet_aton ip)) [
    | inl e ↦ rw (bind_and_listen, e) (closed v here)
    | inr (addr, e) ↦
        let (bound, v1) = os.bind v fd addr port in
        let (listening, v2) = os.listen v1 fd in
        let here1 = λ (g : ℕ). laws.bind_keeps v fd addr port g ∙ here g in
        let here2 = λ (g : ℕ). laws.listen_keeps v1 fd g ∙ here1 g in
        elim (Bool-cases bound) [
          | inr refused ↦ rw (bind_and_listen, e, refused) (closed v1 here1)
          | inl at ↦ elim (Bool-cases listening) [
            | inr deaf ↦ rw (bind_and_listen, e, at, deaf) (closed v2 here2)
            | inl ready ↦ rw (bind_and_listen, e, at, ready) (fresh, here2)
          ]
        ]
  ]
    where
      closed :
          (v : os.World)
          → ((g : ℕ) → in_use v g ≡ (if fd == g then true else in_use w g))
          → (g : ℕ) → in_use (os.close v fd) g ≡ in_use w g
      closed v here g = laws.close_closes v fd g ∙ elim (Bool-cases (fd == g)) [
        | inl hit ↦ let at : fd ≡ g = ground arith in rw hit (sym fresh ∙ ap (in_use w) at)
        | inr miss ↦ rw miss (here g ∙ rw miss refl)
      ]

  -- PynServerCreateTcpServer, where setsockopt() and fcntl() succeed: its result is a new descriptor,
  -- the only one that is open now and was not before, or -1, and then no descriptor is left open.
  pub create_tcp_server-Tidy :
      (w : os.World) (ip : Option (List ℕ)) (port : ℤ)
      → ((v : os.World) (fd : ℕ) (o : SockOpt) → (os.setsockopt v fd o).0 ≡ true)
      → ((v : os.World) (fd : ℕ) → (os.set_nonblock v fd).0 ≡ true)
      → Tidy w (create_tcp_server os inet_aton w ip port)
  unfolding create_tcp_server server_set_tcp_reuseaddr server_set_nonblock
  create_tcp_server-Tidy w none port set free = λ g. refl
  create_tcp_server-Tidy w (some ip) (negsuc n) set free = λ g. refl
  create_tcp_server-Tidy w (some ip) (pos port) set free = elim (Bool-cases (ltb port 1024)) [
    | inl low ↦ rw low (λ g. refl)
    | inr fits ↦ elim (Bool-cases (ltb 65535 port)) [
      | inl high ↦ rw (fits, high) (λ g. refl)
      | inr within ↦
          let (made, w1) = os.socket w tcp in
          elim (Option-cases made) [
            | inl e ↦ rw (fits, within, e) (λ g. laws.socket_fails w tcp w1 g (ap (λ x. (x, w1)) e))
            | inr (fd, e) ↦
                let opened = ap (λ x. (x, w1)) e in
                let w2 = (os.setsockopt w1 fd reuse_addr).1 in
                let w3 = (os.set_nonblock w2 fd).1 in
                rw (fits, within, e, set w1 fd reuse_addr, free w2 fd)
                  (bind_and_listen-Tidy w w3 fd ip port (laws.socket_free w tcp fd w1 opened) λ g.
                    laws.set_nonblock_keeps w2 fd g
                    ∙ laws.setsockopt_keeps w1 fd g reuse_addr
                    ∙ laws.socket_opens w tcp fd w1 g opened)
          ]
    ]
  ]

  -- Where a socket is made for a port in range and SO_REUSEADDR cannot be set, the result is -1 and the
  -- new descriptor is left open.
  pub create_tcp_server_leaks :
      (w : os.World) (ip : List ℕ) (port fd : ℕ)
      → 1024 ≤ port
      → port ≤ 65535
      → (os.socket w tcp).0 ≡ some fd
      → (os.setsockopt (os.socket w tcp).1 fd reuse_addr).0 ≡ false
      → let (ret, w') = create_tcp_server os inet_aton w (some ip) (pos port) in
        (ret ≡ negsuc 0) × (in_use w' fd ≡ true)
  unfolding create_tcp_server server_set_tcp_reuseaddr
  create_tcp_server_leaks w ip port fd low high made refused =
      let fits : ltb port 1024 ≡ false = ground (arith, low) in
      let within : ltb 65535 port ≡ false = ground (arith, high) in
      let w1 = (os.socket w tcp).1 in
      let opened = laws.socket_opens w tcp fd w1 fd (ap (λ x. (x, w1)) made) in
      let self : (fd == fd) ≡ true = ground arith in
      rw (fits, within, made, refused)
        (refl, laws.setsockopt_keeps w1 fd fd reuse_addr ∙ opened ∙ rw self refl)
