-- ===== src/Socket/Open/Owned.antt =====
-- Which descriptors are open after a call: none is lost, and none is closed that was not the call's.
use lsp_framework_noec.Base.{
  ℕ, Bool, true, false, ◌≡◌, refl, sym, ◌∙◌, ap, Bytes, List, [], ◌∷◌, Option, none, some, Outcome,
  ok, unexpected, terminate, out_of_fuel, ◌==◌, if◌then◌else◌, arith, inl, inr, Bool-cases,
}
use lsp_framework_noec.Socket.Open.{
  Sockets, IsLawful, Impl, ConnectError, close_socket_handle, bound, bind_loopback,
  setup_for_listen, connected, try_socket, or_else, try_addresses, found_socket, connect_resolved,
  connect, accepted, listening, listen, close, listener_listen,
}

module _ (O : Sockets) (L : IsLawful O) where
  open O use {World, Address}
  open L use {is_open}

  -- A call that opens nothing.
  abbrev pub Same : World → World → Type 0
  Same v w = (x : ℕ) → is_open w x ≡ is_open v x

  -- A call that opens this descriptor, which was free, and no other.
  abbrev pub Opens : World → ℕ → World → Type 0
  Opens v fd w =
      (is_open v fd ≡ false) × ((x : ℕ) → is_open w x ≡ (if x == fd then true else is_open v x))

  abbrev pub Gains : World → Option ℕ × World → Type 0
  Gains v (none, w) = Same v w
  Gains v (some fd, w) = Opens v fd w

  abbrev pub fd_of : Option Impl × World → Option ℕ × World
  fd_of (none, w) = (none, w)
  fd_of (some impl, w) = (some impl.socket_fd, w)

  abbrev pub fd_of_result : Outcome ConnectError Impl × World → Option ℕ × World
  fd_of_result (ok impl, w) = (some impl.socket_fd, w)
  fd_of_result (_, w) = (none, w)

  -- The socket that `Socket::connect` gives, if it throws nothing.
  abbrev pub socket_of : Outcome ConnectError Impl → Option Impl
  socket_of (ok impl) = some impl
  socket_of _ = none

  Gains-Same : (u v : World) (r : Option ℕ × World) → Same u v → Gains v r → Gains u r
  Gains-Same u v (none, w) h g = λ x. g x ∙ h x
  Gains-Same u v (some fd, w) h (free, g) =
      (sym (h fd) ∙ free, λ x. g x ∙ ap (λ b. if x == fd then true else b) (h x))

  Gains-then_Same :
      (v w : World) (r : Option ℕ) (u : World) → Gains v (r, w) → Same w u → Gains v (r, u)
  Gains-then_Same v w none u g h = λ x. h x ∙ g x
  Gains-then_Same v w (some fd) u (free, g) h = (free, λ x. h x ∙ g x)

  -- Closing a descriptor that was just opened leaves those of before.
  close_socket_handle-Same :
      (fd : ℕ) (u v w : World) → Opens u fd v → Same v w → Same u (close_socket_handle O fd w)
  unfolding close_socket_handle
  close_socket_handle-Same fd u v w (free, g) h x =
      let closed = L.is_open-close fd x (O.shutdown fd w) in
      let kept = L.is_open-shutdown fd x w in
      elim (Bool-cases (x == fd)) [
        | inl y ↦ let here : x ≡ fd = ground (arith, y) in closed ∙ rw (y, here, free) refl
        | inr n ↦ closed ∙ rw (n, kept, h x, g x) (rw n refl)
      ]

  socket-Gains : (a : Address) (v : World) → Gains v (O.socket a v)
  socket-Gains a v = go (O.socket a v) refl
    where
      go : (r : Option ℕ × World) → O.socket a v ≡ r → Gains v r
      go (none, w) e = L.socket-none a v w e
      go (some fd, w) e = L.socket-some a fd v w e

  accept-Gains : (l : ℕ) (v : World) → Gains v (O.accept l v)
  accept-Gains l v = go (O.accept l v) refl
    where
      go : (r : Option ℕ × World) → O.accept l v ≡ r → Gains v r
      go (none, w) e = L.accept-none l v w e
      go (some fd, w) e = L.accept-some l fd v w e

  connected-Gains :
      (fd : ℕ) (u v : World) (r : Bool × World)
      → Opens u fd v
      → Same v r.1
      → Gains u (connected O fd r)
  unfolding connected
  connected-Gains fd u v (true, w) o h = Gains-then_Same u v (some fd) w o h
  connected-Gains fd u v (false, w) o h = close_socket_handle-Same fd u v w o h

  try_socket-Gains :
      (a : Address) (u : World) (r : Option ℕ × World) → Gains u r → Gains u (try_socket O a r)
  unfolding try_socket
  try_socket-Gains a u (none, w) g = g
  try_socket-Gains a u (some fd, w) g =
      connected-Gains fd u w (O.connect fd a w) g (λ x. L.is_open-connect fd x a w)

  or_else-Gains :
      (u : World) (r : Option ℕ × World) (rest : World → Option ℕ × World)
      → Gains u r
      → ((w : World) → Gains w (rest w))
      → Gains u (or_else O r rest)
  unfolding or_else
  or_else-Gains u (some fd, w) rest g h = g
  or_else-Gains u (none, w) rest g h = Gains-Same u w (rest w) g (h w)

  try_addresses-Gains : (list : List Address) (v : World) → Gains v (try_addresses O list v)
  unfolding try_addresses
  try_addresses-Gains [] v = λ x. refl
  try_addresses-Gains (a ∷ rest) v =
      or_else-Gains v (try_socket O a (O.socket a v)) (try_addresses O rest)
        (try_socket-Gains a v (O.socket a v) (socket-Gains a v)) (try_addresses-Gains rest)

  found_socket-Gains :
      (v : World) (r : Option ℕ × World) → Gains v r → Gains v (fd_of_result (found_socket O r))
  unfolding found_socket
  found_socket-Gains v (none, w) g = g
  found_socket-Gains v (some fd, w) g = g

  connect_resolved-Gains :
      (u : World) (r : Option (List Address) × World)
      → Same u r.1
      → Gains u (fd_of_result (connect_resolved O r))
  unfolding connect_resolved
  connect_resolved-Gains u (none, w) h = h
  connect_resolved-Gains u (some list, w) h =
      let found = try_addresses O list w in
      let freed = O.freeaddrinfo list found.1 in
      found_socket-Gains u (found.0, freed)
        (Gains-then_Same u found.1 found.0 freed
          (Gains-Same u w found h (try_addresses-Gains list w))
          (λ x. L.is_open-freeaddrinfo list x found.1))

  -- Whatever the addresses and whichever of them fail, a `connect` that succeeds has opened exactly
  -- one descriptor, the one it gives, and a `connect` that fails has opened none.
  pub connect-Gains :
      (address : Bytes) (port : ℕ) (v : World) → Gains v (fd_of_result (connect O address port v))
  unfolding connect
  connect-Gains address port v =
      connect_resolved-Gains v (O.getaddrinfo address port v)
        (λ x. L.is_open-getaddrinfo address port x v)

  bound-Gains :
      (fd n : ℕ) (u v : World) (r : Bool × World)
      → Opens u fd v
      → Same v r.1
      → Gains u (fd_of (bound O fd n r))
  unfolding bound
  bound-Gains fd n u v (true, w) o h = Gains-then_Same u v (some fd) w o h
  bound-Gains fd n u v (false, w) o h = close_socket_handle-Same fd u v w o h

  bind_loopback-Gains :
      (port n : ℕ) (u : World) (r : Option ℕ × World)
      → Gains u r
      → Gains u (fd_of (bind_loopback O port n r))
  unfolding bind_loopback
  bind_loopback-Gains port n u (none, w) g = g
  bind_loopback-Gains port n u (some fd, w) g =
      bound-Gains fd n u w (O.bind fd (O.loopback port) (O.setsockopt fd w)) g (λ x.
        L.is_open-bind fd x (O.loopback port) (O.setsockopt fd w) ∙ L.is_open-setsockopt fd x w)

  -- The same of a listener that is made.
  pub setup_for_listen-Gains :
      (port n : ℕ) (v : World) → Gains v (fd_of (setup_for_listen O port n v))
  unfolding setup_for_listen
  setup_for_listen-Gains port n v =
      bind_loopback-Gains port n v (O.socket (O.loopback port) v) (socket-Gains (O.loopback port) v)

  accepted-Gains : (v : World) (r : Option ℕ × World) → Gains v r → Gains v (fd_of (accepted O r))
  unfolding accepted
  accepted-Gains v (none, w) g = g
  accepted-Gains v (some fd, w) g = g

  listening-Gains :
      (fd : ℕ) (u : World) (r : Bool × World) → Same u r.1 → Gains u (fd_of (listening O fd r))
  unfolding listening
  listening-Gains fd u (false, w) h = h
  listening-Gains fd u (true, w) h =
      accepted-Gains u (O.accept fd w) (Gains-Same u w (O.accept fd w) h (accept-Gains fd w))

  -- The same of a call of `SocketListener::listen`, whether or not the listener is ready.
  pub listener_listen-Gains :
      (listener : Option Impl) (v : World) → Gains v (fd_of (listener_listen O listener v))
  unfolding listener_listen listen
  listener_listen-Gains none v = λ x. refl
  listener_listen-Gains (some impl) v =
      listening-Gains impl.socket_fd v (O.listen impl.socket_fd impl.max_connections v)
        (λ x. L.is_open-listen impl.socket_fd impl.max_connections x v)

  -- A socket that was gained and is closed leaves the descriptors that were open before, and a socket
  -- that was not closes nothing.
  pub close-Same :
      (v : World) (r : Option Impl × World) → Gains v (fd_of r) → Same v (close O r.0 r.1).1
  unfolding close
  close-Same v (none, w) g = g
  close-Same v (some impl, w) g = close_socket_handle-Same impl.socket_fd v w w g (λ x. refl)

  Gains-socket_of :
      (v : World) (r : Outcome ConnectError Impl) (w : World)
      → Gains v (fd_of_result (r, w))
      → Gains v (fd_of (socket_of r, w))
  Gains-socket_of v (ok impl) w g = g
  Gains-socket_of v (unexpected e) w g = g
  Gains-socket_of v terminate w g = g
  Gains-socket_of v out_of_fuel w g = g

  -- Whatever the operating system does, a call that makes a socket (a client's `connect`, a listener's
  -- `setupForListen`, a `listen` that accepts) opens exactly the descriptor of the socket that it
  -- gives, one that was free, and none when it gives no socket; and closing what the call gave leaves
  -- the descriptors that were open before.
  pub sockets-Gains :
      (address : Bytes) (port n : ℕ) (listener : Option Impl) (v : World)
      → let made = connect O address port v in
        let ready = setup_for_listen O port n v in
        let taken = listener_listen O listener v in
        Gains v (fd_of_result made)
        × Gains v (fd_of ready)
        × Gains v (fd_of taken)
        × Same v (close O (socket_of made.0) made.1).1
        × Same v (close O ready.0 ready.1).1
        × Same v (close O taken.0 taken.1).1
  sockets-Gains address port n listener v = (
    connect-Gains address port v,
    setup_for_listen-Gains port n v,
    listener_listen-Gains listener v,
    (let made = connect O address port v in
        close-Same v (socket_of made.0, made.1)
          (Gains-socket_of v made.0 made.1 (connect-Gains address port v))),
    close-Same v (setup_for_listen O port n v) (setup_for_listen-Gains port n v),
    close-Same v (listener_listen O listener v) (listener_listen-Gains listener v),
  )
