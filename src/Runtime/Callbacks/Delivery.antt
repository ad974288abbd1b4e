-- ===== src/Runtime/Callbacks/Delivery.antt =====
-- From a packet of the shim to the channel of the socket tasks, in src/runtime.rs.
use gmv_pjsip.Prelude.{
  ℕ, ◌≤◌, ◌<◌, ◌≡◌, ◌≢◌, refl, ap, ◌⊎◌, inl, inr, Option-cases, Bool-cases, true, false, not, ◌||◌,
  [], ◌∷◌, ◌++◌, some, arith, ltb, leb, ◌==◌, length, is_empty,
}
use gmv_pjsip.Prelude.Int.{pos, negsuc}
use gmv_pjsip.Text.{Text, as_bytes-is_empty}
use gmv_pjsip.Text.Utf8.Ascii.{is_ascii, from_utf8_lossy-as_bytes}
use gmv_pjsip.Transport.{SipTransportProtocol, SocketAddr, v4, v6, udp, tcp, tls, port_of}
use gmv_pjsip.Transport.Display.{ip_text}
use gmv_pjsip.Transport.Parse.RoundTrip.{parse_ip-ip_text, ip_text-is_ascii, ip_text-is_empty}
use gmv_pjsip.Runtime.Types.{SipTransmit}
use gmv_pjsip.Runtime.Ffi.{string_view, bytes_view, transport_id}
use gmv_pjsip.Runtime.Copies.{
  SendPacket, abi_version, copy_string_view, copy_bytes_view, copy_transport, copy_socket_addr,
  copy_packet,
}
use gmv_pjsip.Runtime.Callbacks.{TransmitState, try_send, runtime_send_callback}

-- The packet by which the shim would ask for a transmit.
abbrev pub packet_of : ℕ → SipTransmit → SendPacket
packet_of size t = record {
  size = size;
  version = abi_version;
  send_id = t.send_id;
  transport_id = t.transport_id;
  association_id = t.association_id;
  transport = pos (transport_id t.protocol);
  payload = bytes_view t.payload;
  local_address = string_view (ip_text t.local_addr);
  local_port = port_of t.local_addr;
  remote_address = string_view (ip_text t.remote_addr);
  remote_port = port_of t.remote_addr;
}

abbrev pub IsIpv4 : SocketAddr → Type 0
IsIpv4 (v4 a b c d port) = (a < 256) × (b < 256) × (c < 256) × (d < 256)
IsIpv4 (v6 segments port) = ⊥

copy_string_view-string_view :
    (t : Text) → is_empty t ≡ false → is_ascii t ≡ true → copy_string_view (string_view t) ≡ some t
unfolding copy_string_view
copy_string_view-string_view t e a =
    rw (as_bytes-is_empty t, e) (ap some (from_utf8_lossy-as_bytes t a))

copy_socket_addr-ip_text :
    (addr : SocketAddr)
    → IsIpv4 addr
    → copy_socket_addr (string_view (ip_text addr)) (port_of addr) ≡ some addr
unfolding copy_socket_addr
copy_socket_addr-ip_text (v6 segments port) h = absurd h
copy_socket_addr-ip_text (v4 a b c d port) (la, lb, lc, ld) =
    rw
      (copy_string_view-string_view (ip_text (v4 a b c d port)) (ip_text-is_empty a b c d port)
        (ip_text-is_ascii a b c d port la lb lc ld))
      (parse_ip-ip_text a b c d port la lb lc ld)

copy_transport-transport_id :
    (p : SipTransportProtocol) → p ≢ tls → copy_transport (pos (transport_id p)) ≡ some p
unfolding copy_transport
copy_transport-transport_id udp h = refl
copy_transport-transport_id tcp h = refl
copy_transport-transport_id tls h = absurd (h refl)

pub copy_packet-packet_of :
    (size : ℕ) (t : SipTransmit)
    → t.protocol ≢ tls
    → IsIpv4 t.local_addr
    → IsIpv4 t.remote_addr
    → copy_packet (packet_of size t) ≡ some t
unfolding copy_packet copy_bytes_view
copy_packet-packet_of size t p l r = rw (
  copy_transport-transport_id t.protocol p,
  copy_socket_addr-ip_text t.local_addr l,
  copy_socket_addr-ip_text t.remote_addr r,
)

-- A packet of the shim for UDP or TCP between IPv4 addresses arrives whole: where the structure has the
-- version and at least the size of the bindings, and the channel to the socket tasks is open and has
-- room, the callback reports success and the transmit stands at the end of the channel with the
-- addresses, the ports, the numbers and the bytes that the packet names.
pub runtime_send_callback-packet_of :
    (event_size packet_size size : ℕ) (t : SipTransmit) (state : TransmitState)
    → packet_size ≤ size
    → t.protocol ≢ tls
    → IsIpv4 t.local_addr
    → IsIpv4 t.remote_addr
    → state.receiving ≡ true
    → length state.queue < state.capacity
    → runtime_send_callback event_size packet_size (some (packet_of size t)) (some state)
      ≡ (pos 0, some (record state { queue = state.queue ++ (t ∷ []) }))
unfolding runtime_send_callback
runtime_send_callback-packet_of event_size packet_size size t state big p l r alive room =
    rw (copy_packet-packet_of size t p l r) (unfold try_send in ground arith)

-- Whatever the packet: either its version, its size and its addresses are accepted, the channel is open
-- and has room, success is reported and the transmit stands at the end of the channel; or a failure
-- is reported and the channel stays as it was.
pub runtime_send_callback-Outcome :
    (event_size packet_size : ℕ) (p : SendPacket) (state : TransmitState)
    → ((t : SipTransmit) × (copy_packet p ≡ some t)
        × (p.version ≡ abi_version)
        × (packet_size ≤ p.size)
        × (state.receiving ≡ true)
        × (length state.queue < state.capacity)
        × (runtime_send_callback event_size packet_size (some p) (some state)
            ≡ (pos 0, some (record state { queue = state.queue ++ (t ∷ []) }))))
      ⊎ (runtime_send_callback event_size packet_size (some p) (some state)
          ≡ (negsuc 0, some state))
unfolding runtime_send_callback try_send
runtime_send_callback-Outcome event_size packet_size p state =
    elim (Bool-cases (not (p.version == abi_version) || ltb p.size packet_size)) [
      | inl bad ↦ inr (rw (bad, runtime_send_callback))
      | inr good ↦ elim (Option-cases (copy_packet p)) [
        | inl e ↦ inr (rw (good, e, runtime_send_callback))
        | inr (t, e) ↦
            elim (Bool-cases (not state.receiving || leb state.capacity (length state.queue))) [
              | inl full ↦ inr (rw (good, e, full, runtime_send_callback))
              | inr room ↦ inl (
                t,
                e,
                ground arith,
                ground arith,
                ground arith,
                ground arith,
                rw (good, e, room, runtime_send_callback),
              )
            ]
      ]
    ]
