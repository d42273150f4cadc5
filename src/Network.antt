-- ===== src/Network.antt =====
-- src/network.c: a connection to the stream server. The sockets are the system's.
mod Tests
use camkit.Base.{
  ℕ, ◌*◌, ◌+◌, ◌/◌, ◌%◌, ◌^◌, ◌≡◌, refl, Bool, true, false, not, Option, none, some, List, [], ok,
  if◌then◌else◌, length, take,
}
use camkit.Base.Resources.{Run, acquire, release, result, replay, open_close, ◌>>=◌, ◌>>◌}

pub data NetType : Type 0 where
  udp tcp : NetType

-- `none` stands for NULL and -1.
pub record NetParam : Type 0 where
  pub type : NetType
  pub serip : Option (List ℕ)
  pub serport : Option ℕ

pub data SocketType : Type 0 where
  sock_stream sock_dgram : SocketType

-- The address of the server: the port as `htons` makes it, the number that `inet_addr` makes of the
-- text.
pub record Sockaddr : Type 0 where
  pub sin_port : ℕ
  pub s_addr : ℕ

pub record NetHandle : Type 0 where
  pub socket_type : SocketType
  pub server_sock : Sockaddr
  pub params : NetParam

pub data Resource : Type 0 where
  handle_memory sktfd : Resource

unfoldable pub Resource-discrete : Discrete Resource
Resource-discrete = hlevel

-- `connect` answers to the address.
pub record Answers : Type 0 where
  pub malloc_handle : Bool
  pub socket : SocketType → Bool
  pub connect : SocketType → Sockaddr → Bool

abbrev pub socket_type_of : NetType → SocketType
socket_type_of tcp = sock_stream
socket_type_of udp = sock_dgram

-- On a port or an address that is absent the code reads -1 and NULL; the client has tested them.
module _ (htons : ℕ → ℕ) (inet_addr : List ℕ → ℕ) where
  unfoldable pub net_open :
      Answers → NetParam → (serip : List ℕ) → (serport : ℕ) → Run Resource (Option NetHandle)
  net_open a params serip serport =
      let kind = socket_type_of params.type in
      let server : Sockaddr = record { sin_port = htons serport; s_addr = inet_addr serip } in
      do
        handle ← acquire handle_memory a.malloc_handle
        if not handle then result none else (do
          socket ← acquire sktfd (a.socket kind)
          if not socket
              then (release handle_memory >> result none)
              else if not (a.connect kind server)
              then (release sktfd >> release handle_memory >> result none)
              else result
                  (some (record { socket_type = kind; server_sock = server; params = params })))

unfoldable pub net_close : NetHandle → Run Resource (Unit {0})
net_close handle = release sktfd >> release handle_memory

-- `send` and `recv` of the system, on the socket; `send` gives what it takes, `recv` what there is.
abbrev pub net_send :
    (send : NetHandle → List ℕ → Option ℕ) → NetHandle → (bytes : List ℕ) → (size : ℕ) → Option ℕ
net_send send handle bytes size = send handle (take size bytes)

abbrev pub net_recv :
    (recv : NetHandle → ℕ → Option (List ℕ)) → NetHandle → (size : ℕ) → Option (List ℕ)
net_recv recv handle size = recv handle size

-- Whatever the system answers, `net_open` and, where it gives a handle, `net_close` leave nothing held
-- and give nothing back twice.
pub net_open-net_close :
    (htons : ℕ → ℕ) (inet_addr : List ℕ → ℕ) (a : Answers) (params : NetParam) (serip : List ℕ)
    (serport : ℕ)
    → replay Resource-discrete
        (open_close (net_open htons inet_addr a params serip serport) net_close).0
        []
      ≡ ok []
unfolding net_open net_close Resource-discrete replay
net_open-net_close htons inet_addr a params serip serport =
    go a.malloc_handle (a.socket (socket_type_of params.type))
      (a.connect (socket_type_of params.type)
        (record { sin_port = htons serport; s_addr = inet_addr serip }))
      refl refl refl
  where
    go :
        (m s c : Bool)
        → a.malloc_handle ≡ m
        → a.socket (socket_type_of params.type) ≡ s
        → a.connect
            (socket_type_of params.type)
            (record { sin_port = htons serport; s_addr = inet_addr serip })
          ≡ c
        → replay Resource-discrete
            (open_close (net_open htons inet_addr a params serip serport) net_close).0
            []
          ≡ ok []
    go false s c em es ec = rw em refl
    go true false c em es ec = rw (em, es) refl
    go true true false em es ec = rw (em, es, ec) refl
    go true true true em es ec = rw (em, es, ec) refl
