-- ===== src/DescriptorWitnesses.antt =====
-- Runs of the theorems on descriptors, with a system that has one to give.
use lsp_framework_noec.Base.{
  ℕ, ◌≡◌, refl, sym, inl, inr, Bool-cases, Bool, true, false, [], ◌∷◌, Option, none, some, ◌==◌,
  if◌then◌else◌, arith, ok,
}
use lsp_framework_noec.Socket.Open.{
  Sockets, connect, connect_resolved, try_addresses, or_else, try_socket, connected,
  close_socket_handle, found_socket,
}
use lsp_framework_noec.Socket.Open
use lsp_framework_noec.Socket.Open.Owned.{Gains, fd_of_result, sockets-Gains}

-- A system that has one descriptor to give, number 3.
abbrev Table : Type 0
Table = Option ℕ

unfoldable one_socket : Table → Option ℕ × Table
one_socket none = (some 3, some 3)
one_socket (some fd) = (none, some fd)

unfoldable one_is_open : Table → ℕ → Bool
one_is_open none x = false
one_is_open (some fd) x = x == fd

unfoldable one_close : ℕ → Table → Table
one_close fd none = none
one_close fd (some other) = if other == fd then none else some other

-- Two addresses, of which only the second accepts connections.
abbrev one_descriptor : Sockets
one_descriptor = record {
  World = Table;
  Address = ℕ;
  getaddrinfo = λ address port w. (some (6 ∷ 7 ∷ []), w);
  freeaddrinfo = λ list w. w;
  loopback = λ port. 6;
  socket = λ a w. one_socket w;
  setsockopt = λ fd w. w;
  connect = λ fd a w. (a == 7, w);
  bind = λ fd a w. (true, w);
  listen = λ fd n w. (true, w);
  accept = λ fd w. one_socket w;
  shutdown = λ fd w. w;
  close = one_close;
}

one_socket-none :
    (v w : Table) → one_socket v ≡ (none, w) → (x : ℕ) → one_is_open w x ≡ one_is_open v x
unfolding one_socket
one_socket-none none w e x = absurd (cc e)
one_socket-none (some fd) w e x = let here : some fd ≡ w = cc e in rw (sym here) refl

one_socket-some :
    (fd : ℕ) (v w : Table)
    → one_socket v ≡ (some fd, w)
    → (one_is_open v fd ≡ false)
      × ((x : ℕ) → one_is_open w x ≡ (if x == fd then true else one_is_open v x))
unfolding one_socket one_is_open
one_socket-some fd none w e =
    let three : 3 ≡ fd = cc e in
    let here : some 3 ≡ w = cc e in (refl, λ x. rw (sym here, sym three) (ground arith))
one_socket-some fd (some other) w e = absurd (cc e)

one_is_open-close :
    (fd x : ℕ) (v : Table)
    → one_is_open (one_close fd v) x ≡ (if x == fd then false else one_is_open v x)
unfolding one_close one_is_open
one_is_open-close fd x none = ground arith
one_is_open-close fd x (some other) = elim (Bool-cases (other == fd)) [
  | inl y ↦ rw y (ground (arith, y))
  | inr n ↦ rw n (ground (arith, n))
]

abbrev one_descriptor-IsLawful : Open.IsLawful one_descriptor
one_descriptor-IsLawful = record {
  is_open = one_is_open;
  socket-none = λ a. one_socket-none;
  socket-some = λ a. one_socket-some;
  accept-none = λ l. one_socket-none;
  accept-some = λ l. one_socket-some;
  is_open-close = one_is_open-close;
  is_open-shutdown = λ fd x v. refl;
  is_open-setsockopt = λ fd x v. refl;
  is_open-bind = λ fd x a v. refl;
  is_open-listen = λ fd n x v. refl;
  is_open-connect = λ fd x a v. refl;
  is_open-getaddrinfo = λ address port x v. refl;
  is_open-freeaddrinfo = λ list x v. refl;
}

sockets_example :
    Gains one_descriptor one_descriptor-IsLawful none
      (fd_of_result one_descriptor one_descriptor-IsLawful (connect one_descriptor [] 80 none))
sockets_example = (sockets-Gains one_descriptor one_descriptor-IsLawful [] 80 1 none none).0

-- The descriptor of the first address is closed before the second is tried.
connect_runs :
    connect one_descriptor [] 80 none ≡ (ok (record { socket_fd = 3; max_connections = 1 }), some 3)
unfolding connect connect_resolved try_addresses or_else try_socket connected close_socket_handle
    found_socket one_socket one_close
connect_runs = refl
