-- ===== src/Io/Readers.antt =====
-- The loops of `read_udp` and `accept_tcp` of src/io.rs, each by itself. What the sockets answer is an
-- argument: `none` stands for an error, after which the loop waits and goes on.
pub mod Steps
use gmv_pjsip.Prelude.{ℕ, Bool, List, [], ◌∷◌, Option, none, some, if◌then◌else◌}
use gmv_pjsip.Transport.{SocketAddr}
use gmv_pjsip.Io.Framing.{Bytes}
use gmv_pjsip.Io.Connections.{Sockets, udp_received, tcp_accepted}
use gmv_pjsip.Io.Launch.{leaves}

pub data UdpTurn : Type 0 where
  received : Option (Bytes × SocketAddr) → UdpTurn
  udp_shutdown : Option Bool → UdpTurn

-- The loop of `read_udp` on a socket bound to the address.
unfoldable pub read_datagrams : SocketAddr → List UdpTurn → Sockets → Sockets
unfolding udp_received
read_datagrams local_addr [] s = s
read_datagrams local_addr (received none ∷ turns) s = read_datagrams local_addr turns s
read_datagrams local_addr (received (some (payload, remote_addr)) ∷ turns) s =
    read_datagrams local_addr turns (udp_received local_addr remote_addr payload s)
read_datagrams local_addr (udp_shutdown news ∷ turns) s =
    let rest = read_datagrams local_addr turns s in if leaves news then s else rest

-- A socket whose address cannot be read is not served.
unfoldable pub read_udp : Option SocketAddr → List UdpTurn → Sockets → Sockets
unfolding read_datagrams
read_udp none turns s = s
read_udp (some local_addr) turns s = read_datagrams local_addr turns s

-- A stream comes with the address of the peer.
pub data AcceptTurn : Type 0 where
  incoming : Option SocketAddr → AcceptTurn
  accept_shutdown : Option Bool → AcceptTurn

unfoldable pub accept_tcp : List AcceptTurn → Sockets → Sockets
unfolding tcp_accepted
accept_tcp [] s = s
accept_tcp (incoming none ∷ turns) s = accept_tcp turns s
accept_tcp (incoming (some remote_addr) ∷ turns) s = accept_tcp turns (tcp_accepted remote_addr s)
accept_tcp (accept_shutdown news ∷ turns) s =
    let rest = accept_tcp turns s in if leaves news then s else rest
