-- ===== src/Socket/Open.antt =====
-- How sockets are opened and closed: `Socket::Impl::connect`, `setupForListen` and `listen`,
-- `Socket::close` and `SocketListener`.
pub mod Owned
use lsp_framework_noec.Base.{
  ◌==◌, if◌then◌else◌, ℕ, Bool, true, false, ◌≡◌, Bytes, List, [], ◌∷◌, Option, none, some, Outcome,
  ok, unexpected,
}

-- The operating system's part. A descriptor is a number; -1 is `none`.
pub record Sockets : Type 1 where
  pub World : Type 0
  -- An entry of the list that `getaddrinfo` makes.
  pub Address : Type 0
  pub getaddrinfo : Bytes → ℕ → World → Option (List Address) × World
  pub freeaddrinfo : List Address → World → World
  -- The address of a port of this machine.
  pub loopback : ℕ → Address
  pub socket : Address → World → Option ℕ × World
  pub setsockopt : ℕ → World → World
  -- Whether the call succeeds, here and below.
  pub connect : ℕ → Address → World → Bool × World
  pub bind : ℕ → Address → World → Bool × World
  pub listen : ℕ → ℕ → World → Bool × World
  pub accept : ℕ → World → Option ℕ × World
  pub shutdown : ℕ → World → World
  pub close : ℕ → World → World

-- What the operating system says of its open descriptors.
pub record IsLawful (O : Sockets) : Type 0 where
  pub is_open : O.World → ℕ → Bool
  pub socket-none :
      (a : O.Address) (v w : O.World)
      → O.socket a v ≡ (none, w)
      → (x : ℕ) → is_open w x ≡ is_open v x
  pub socket-some :
      (a : O.Address) (fd : ℕ) (v w : O.World)
      → O.socket a v ≡ (some fd, w)
      → (is_open v fd ≡ false) × ((x : ℕ) → is_open w x ≡ (if x == fd then true else is_open v x))
  pub accept-none :
      (l : ℕ) (v w : O.World) → O.accept l v ≡ (none, w) → (x : ℕ) → is_open w x ≡ is_open v x
  pub accept-some :
      (l fd : ℕ) (v w : O.World)
      → O.accept l v ≡ (some fd, w)
      → (is_open v fd ≡ false) × ((x : ℕ) → is_open w x ≡ (if x == fd then true else is_open v x))
  pub is_open-close :
      (fd x : ℕ) (v : O.World) → is_open (O.close fd v) x ≡ (if x == fd then false else is_open v x)
  pub is_open-shutdown : (fd x : ℕ) (v : O.World) → is_open (O.shutdown fd v) x ≡ is_open v x
  pub is_open-setsockopt : (fd x : ℕ) (v : O.World) → is_open (O.setsockopt fd v) x ≡ is_open v x
  pub is_open-bind :
      (fd x : ℕ) (a : O.Address) (v : O.World) → is_open (O.bind fd a v).1 x ≡ is_open v x
  pub is_open-listen : (fd n x : ℕ) (v : O.World) → is_open (O.listen fd n v).1 x ≡ is_open v x
  pub is_open-connect :
      (fd x : ℕ) (a : O.Address) (v : O.World) → is_open (O.connect fd a v).1 x ≡ is_open v x
  pub is_open-getaddrinfo :
      (address : Bytes) (port x : ℕ) (v : O.World)
      → is_open (O.getaddrinfo address port v).1 x ≡ is_open v x
  pub is_open-freeaddrinfo :
      (list : List O.Address) (x : ℕ) (v : O.World)
      → is_open (O.freeaddrinfo list v) x ≡ is_open v x

-- `Socket::Impl`.
pub record Impl : Type 0 where
  pub socket_fd : ℕ
  pub max_connections : ℕ

pub data ConnectError : Type 0 where
  getaddrinfo_error connect_error : ConnectError

module _ (O : Sockets) where
  open O use {World, Address}

  -- `closeSocketHandle` of a valid handle, which the destructor of `Impl` calls.
  unfoldable pub close_socket_handle : ℕ → World → World
  close_socket_handle handle w = O.close handle (O.shutdown handle w)

  -- What `bind` of a new socket comes to.
  unfoldable pub bound : ℕ → ℕ → Bool × World → Option Impl × World
  bound fd max_connections (true, w) =
      (some (record { socket_fd = fd; max_connections = max_connections }), w)
  bound fd max_connections (false, w) = (none, close_socket_handle fd w)

  unfoldable pub bind_loopback : ℕ → ℕ → Option ℕ × World → Option Impl × World
  bind_loopback port max_connections (none, w) = (none, w)
  bind_loopback port max_connections (some fd, w) =
      bound fd max_connections (O.bind fd (O.loopback port) (O.setsockopt fd w))

  unfoldable pub setup_for_listen : ℕ → ℕ → World → Option Impl × World
  setup_for_listen port max_connections w =
      bind_loopback port max_connections (O.socket (O.loopback port) w)

  -- One round of the loop over the addresses: the descriptor of a connection, or none.
  unfoldable pub connected : ℕ → Bool × World → Option ℕ × World
  connected fd (true, w) = (some fd, w)
  connected fd (false, w) = (none, close_socket_handle fd w)

  unfoldable pub try_socket : Address → Option ℕ × World → Option ℕ × World
  try_socket address (none, w) = (none, w)
  try_socket address (some fd, w) = connected fd (O.connect fd address w)

  -- The loop stops at the first connection: `rest` is what the other addresses come to.
  unfoldable pub or_else : Option ℕ × World → (World → Option ℕ × World) → Option ℕ × World
  or_else (some fd, w) rest = (some fd, w)
  or_else (none, w) rest = rest w

  unfoldable pub try_addresses : List Address → World → Option ℕ × World
  try_addresses [] w = (none, w)
  try_addresses (a ∷ rest) w = or_else (try_socket a (O.socket a w)) (try_addresses rest)

  unfoldable pub found_socket : Option ℕ × World → Outcome ConnectError Impl × World
  found_socket (some fd, w) = (ok (record { socket_fd = fd; max_connections = 1 }), w)
  found_socket (none, w) = (unexpected connect_error, w)

  unfoldable pub connect_resolved :
      Option (List Address) × World → Outcome ConnectError Impl × World
  connect_resolved (none, w) = (unexpected getaddrinfo_error, w)
  connect_resolved (some list, w) =
      let (found, v) = try_addresses list w in found_socket (found, O.freeaddrinfo list v)

  unfoldable pub connect : Bytes → ℕ → World → Outcome ConnectError Impl × World
  connect address port w = connect_resolved (O.getaddrinfo address port w)

  unfoldable pub accepted : Option ℕ × World → Option Impl × World
  accepted (none, w) = (none, w)
  accepted (some fd, w) = (some (record { socket_fd = fd; max_connections = 1 }), w)

  unfoldable pub listening : ℕ → Bool × World → Option Impl × World
  listening fd (false, w) = (none, w)
  listening fd (true, w) = accepted (O.accept fd w)

  -- `Impl::listen`.
  unfoldable pub listen : Impl → World → Option Impl × World
  listen impl w = listening impl.socket_fd (O.listen impl.socket_fd impl.max_connections w)

  -- `Socket::close`, and the destructor of a socket.
  unfoldable pub close : Option Impl → World → Option Impl × World
  close none w = (none, w)
  close (some impl) w = (none, close_socket_handle impl.socket_fd w)

  -- `SocketListener::listen`.
  unfoldable pub listener_listen : Option Impl → World → Option Impl × World
  listener_listen none w = (none, w)
  listener_listen (some impl) w = listen impl w
