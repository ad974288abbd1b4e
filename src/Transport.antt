-- ===== src/Transport.antt =====
-- src/transport.rs: protocols, socket addresses and associations. A packet's time of arrival is a
-- number, and `Bytes` is a list of bytes.
pub mod Display
pub mod Parse
use gmv_pjsip.Prelude.{ℕ, Bool, true, false, List}
use gmv_pjsip.Text.{Text, codes}

pub data SipTransportProtocol : Type 0 where
  udp tcp tls : SipTransportProtocol

unfoldable pub as_sip_token : SipTransportProtocol → Text
as_sip_token udp = codes "UDP"
as_sip_token tcp = codes "TCP"
as_sip_token tls = codes "TLS"

-- `std::net::SocketAddr`: four bytes or eight segments, and the port.
pub data SocketAddr : Type 0 where
  v4 : ℕ → ℕ → ℕ → ℕ → ℕ → SocketAddr
  v6 : List ℕ → ℕ → SocketAddr

abbrev pub is_ipv4 : SocketAddr → Bool
is_ipv4 (v4 a b c d port) = true
is_ipv4 (v6 segments port) = false

abbrev pub port_of : SocketAddr → ℕ
port_of (v4 a b c d port) = port
port_of (v6 segments port) = port

pub record SipAssociation : Type 0 where
  pub local_addr : SocketAddr
  pub remote_addr : SocketAddr
  pub protocol : SipTransportProtocol

pub record SipPacketMeta : Type 0 where
  pub local_addr : SocketAddr
  pub remote_addr : SocketAddr
  pub protocol : SipTransportProtocol
  pub received_at : ℕ

pub record SipRxPacket : Type 0 where
  pub bytes : List ℕ
  pub packet_meta : SipPacketMeta

pub record SipTxPacket : Type 0 where
  pub bytes : List ℕ
  pub association : SipAssociation

pub association : SipPacketMeta → SipAssociation
association m = record {
  local_addr = m.local_addr;
  remote_addr = m.remote_addr;
  protocol = m.protocol;
}
