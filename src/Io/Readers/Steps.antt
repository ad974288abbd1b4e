-- ===== src/Io/Readers/Steps.antt =====
-- The loops of `read_udp` and `accept_tcp` in src/io.rs are runs of the step relation.
use gmv_pjsip.Prelude.{ℕ, suc, List, [], ◌∷◌, none, some, Bool-cases, inl, inr}
use gmv_pjsip.Transport.{SocketAddr}
use gmv_pjsip.Io.Connections.{Sockets, udp_received, tcp_accepted, datagram, Reach, accepting, step}
use gmv_pjsip.Io.Launch.{leaves}
use gmv_pjsip.Io.Readers.{
  UdpTurn, received, udp_shutdown, read_datagrams, AcceptTurn, incoming, accept_shutdown,
  accept_tcp,
}

pub read_datagrams-Reach :
    {capacity n : ℕ} (l : SocketAddr) (turns : List UdpTurn) (s : Sockets)
    → Reach capacity n s
    → Reach capacity n (read_datagrams l turns s)
unfolding read_datagrams
read_datagrams-Reach l [] s r = r
read_datagrams-Reach l (received none ∷ turns) s r = read_datagrams-Reach l turns s r
read_datagrams-Reach l (received (some (payload, remote_addr)) ∷ turns) s r =
    read_datagrams-Reach l turns (udp_received l remote_addr payload s)
      (step r (datagram l remote_addr payload))
read_datagrams-Reach l (udp_shutdown news ∷ turns) s r =
    let later = read_datagrams-Reach l turns s r in
    elim (Bool-cases (leaves news)) [
      | inl y ↦ rw (y, read_datagrams) r
      | inr n ↦ rw (n, read_datagrams) later
    ]

-- The number counts the streams accepted.
pub accept_tcp-Reach :
    {capacity : ℕ} (turns : List AcceptTurn) (n : ℕ) (s : Sockets)
    → Reach capacity n s
    → (m : ℕ) × Reach capacity m (accept_tcp turns s)
unfolding accept_tcp
accept_tcp-Reach [] n s r = (n, r)
accept_tcp-Reach (incoming none ∷ turns) n s r = accept_tcp-Reach turns n s r
accept_tcp-Reach (incoming (some remote_addr) ∷ turns) n s r =
    accept_tcp-Reach turns (suc n) (tcp_accepted remote_addr s) (accepting remote_addr r)
accept_tcp-Reach (accept_shutdown news ∷ turns) n s r =
    let later = accept_tcp-Reach turns n s r in
    elim (Bool-cases (leaves news)) [
      | inl y ↦ rw (y, accept_tcp) (n, r)
      | inr no_news ↦ rw (no_news, accept_tcp) later
    ]
