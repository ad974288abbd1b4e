-- ===== src/Runtime/Requests/Later.antt =====
-- What a structure for the C shim has to say of a request or a response of src/runtime.rs inside a
-- dialog, of a source, and of a packet that arrived.
use gmv_pjsip.Prelude.{
  ℕ, suc, ◌*◌, ◌≤◌, ◌<◌, ◌≡◌, ◌≢◌, ◌⊎◌, refl, ap, ◌∙◌, inl, inr, Bool, true, false, List, [], ◌∷◌,
  Option, none, some, arith, any, contains,
}
use gmv_pjsip.Text.{Text, as_bytes, split}
use gmv_pjsip.Text.Parts.{split-plain, split-part}
use gmv_pjsip.Text.Utf8.Ascii.{as_bytes-contains_feed}
use gmv_pjsip.Transport.{SipTransportProtocol, SocketAddr, tls, port_of}
use gmv_pjsip.Transport.Display.{ip_text}
use gmv_pjsip.Runtime.Types.{
  SipDialogMethod, bye, info, SipDialogRequest, SipRestoredDialogRequest, SipInviteResponse,
  SipRecoverySource,
}
use gmv_pjsip.Runtime.Ffi.{
  StringView, view, DialogRequest, RestoredDialogRequest, InviteResponse, RecoverySource,
  ReceivedPacket, transport_id, dialog_method_id, or_empty,
}
use gmv_pjsip.Runtime.Checks.{is_control, has_control, valid_registration_order}
use gmv_pjsip.Runtime.Dialog.{dialog_request, join_lines, restored_request, response_request}
use gmv_pjsip.Runtime.Packets.{packet_request}
use gmv_pjsip.Runtime.Sources.{or_default, recovery_request}
use gmv_pjsip.Runtime.Accepts.Later.{AreLines, CanRestore, CanRecover}
use gmv_pjsip.Runtime.Requests.{
  Shows, ShowsIfGiven, IsTransport, route-IsTransport, optional_view-ShowsIfGiven,
}

-- 1 for BYE, 2 for INFO.
abbrev pub IsMethod : SipDialogMethod → ℕ → Type 0
IsMethod method k = ((method ≡ bye) × (k ≡ 1)) ⊎ ((method ≡ info) × (k ≡ 2))

dialog_method_id-IsMethod : (method : SipDialogMethod) → IsMethod method (dialog_method_id method)
dialog_method_id-IsMethod bye = inl (refl, refl)
dialog_method_id-IsMethod info = inr (refl, refl)

pub record IsDialogRequest (q : SipDialogRequest) (r : DialogRequest) : Type 0 where
  pub operation : r.operation_id ≡ q.operation_id
  pub named : IsMethod q.method r.method
  pub call : Shows q.call_id r.call_id
  pub content : ShowsIfGiven q.content_type r.content_type
  pub payload : r.body ≡ view q.body

pub dialog_request-IsDialogRequest : (q : SipDialogRequest) → IsDialogRequest q (dialog_request q)
unfolding dialog_request
dialog_request-IsDialogRequest q = record {
  operation = refl;
  named = dialog_method_id-IsMethod q.method;
  call = refl;
  content = optional_view-ShowsIfGiven q.content_type;
  payload = refl;
}

-- A text of one route on each line: nothing where there is no route, and else a text whose lines, cut at
-- the line feeds, are the routes in their order.
abbrev pub ShowsRoutes : List Text → StringView → Type 0
ShowsRoutes [] v = v ≡ view []
ShowsRoutes (t ∷ ts) v = (text : Text) × Shows text v × (split b'\n' text ≡ t ∷ ts)

feedless : (bytes : List ℕ) → any is_control bytes ≡ false → contains b'\n' bytes ≡ false
feedless [] h = refl
feedless (b ∷ bytes) h = ground (arith, feedless bytes)

has_control-feedless : (t : Text) → has_control t ≡ false → contains b'\n' t ≡ false
has_control-feedless t h = as_bytes-contains_feed t (feedless (as_bytes t) h)

split-join_lines :
    (t : Text) (ts : List Text) → AreLines (t ∷ ts) → split b'\n' (join_lines (t ∷ ts)) ≡ t ∷ ts
unfolding join_lines
split-join_lines t [] a = split-plain b'\n' t (has_control-feedless t a.0.1)
split-join_lines t (u ∷ ts) a =
    split-part b'\n' t (join_lines (u ∷ ts)) (has_control-feedless t a.0.1)
    ∙ ap (◌∷◌ t) (split-join_lines u ts a.1)

join_lines-ShowsRoutes :
    (ts : List Text) → AreLines ts → ShowsRoutes ts (view (as_bytes (join_lines ts)))
unfolding join_lines as_bytes
join_lines-ShowsRoutes [] a = refl
join_lines-ShowsRoutes (t ∷ ts) a = (join_lines (t ∷ ts), refl, split-join_lines t ts a)

pub record IsRestored (q : SipRestoredDialogRequest) (r : RestoredDialogRequest) : Type 0 where
  pub operation : r.operation_id ≡ q.operation_id
  pub named : IsMethod q.method r.method
  pub association : r.association_id ≡ q.snapshot.association_id
  pub route : IsTransport q.snapshot.protocol r.transport
  pub numbered : r.local_cseq ≡ q.snapshot.local_cseq
  pub call : Shows q.snapshot.call_id r.call_id
  pub local : Shows q.snapshot.local_uri r.local_uri
  pub remote : Shows q.snapshot.remote_uri r.remote_uri
  pub tag : Shows q.snapshot.local_tag r.local_tag
  pub other_tag : Shows q.snapshot.remote_tag r.remote_tag
  pub target : Shows q.snapshot.remote_target r.remote_target
  pub routes : ShowsRoutes q.snapshot.route_set r.route_set
  pub address : Shows (ip_text q.snapshot.remote_addr) r.remote_address
  pub port : r.remote_port ≡ port_of q.snapshot.remote_addr
  pub content : ShowsIfGiven q.content_type r.content_type
  pub payload : r.body ≡ view q.body

pub restored_request-IsRestored :
    (stopped : Bool) (q : SipRestoredDialogRequest)
    → CanRestore stopped q
    → IsRestored q (restored_request q)
unfolding restored_request
restored_request-IsRestored stopped q c = record {
  operation = refl;
  named = dialog_method_id-IsMethod q.method;
  association = refl;
  route = route-IsTransport q.snapshot.protocol q.snapshot.association_id c.restored.route;
  numbered = refl;
  call = refl;
  local = refl;
  remote = refl;
  tag = refl;
  other_tag = refl;
  target = refl;
  routes = join_lines-ShowsRoutes q.snapshot.route_set c.restored.routes;
  address = refl;
  port = refl;
  content = optional_view-ShowsIfGiven q.content_type;
  payload = refl;
}

pub record IsResponse (q : SipInviteResponse) (r : InviteResponse) : Type 0 where
  pub status : r.status_code ≡ q.status_code
  pub call : Shows q.call_id r.call_id
  pub reason_text : ShowsIfGiven q.reason r.reason
  pub content : ShowsIfGiven q.content_type r.content_type
  pub payload : r.body ≡ view q.body

pub response_request-IsResponse : (q : SipInviteResponse) → IsResponse q (response_request q)
unfolding response_request
response_request-IsResponse q = record {
  status = refl;
  call = refl;
  reason_text = optional_view-ShowsIfGiven q.reason;
  content = optional_view-ShowsIfGiven q.content_type;
  payload = refl;
}

-- The order of a registration: its Call-ID and CSeq number where both are given, nothing and zero where
-- neither is.
abbrev pub ShowsOrder : Option Text → Option ℕ → StringView → ℕ → Type 0
ShowsOrder (some call_id) (some cseq) v k = Shows call_id v × (k ≡ cseq)
ShowsOrder none none v k = (v ≡ view []) × (k ≡ 0)
ShowsOrder none (some cseq) v k = ⊥
ShowsOrder (some call_id) none v k = ⊥

pub record IsRecovery (s : SipRecoverySource) (r : RecoverySource) : Type 0 where
  pub route : IsTransport s.protocol r.transport
  pub device : Shows s.device_id r.device_id
  pub address : Shows s.remote_address r.remote_address
  pub order :
      ShowsOrder s.registration_call_id s.registration_cseq r.registration_call_id
        r.registration_cseq
  -- The whole milliseconds of the lifetime, which is in nanoseconds.
  pub lifetime : (r.ttl_ms * 1000000 ≤ s.ttl) × (s.ttl < suc r.ttl_ms * 1000000)

transport_id-IsTransport : (p : SipTransportProtocol) → p ≢ tls → IsTransport p (transport_id p)
transport_id-IsTransport p n = ground arith

pub record IsPacket (association_id : ℕ) (protocol : SipTransportProtocol)
    (local_addr remote_addr : SocketAddr) (payload : List ℕ) (r : ReceivedPacket) : Type 0 where
  pub association : r.association_id ≡ association_id
  pub route : IsTransport protocol r.transport
  pub content : r.payload ≡ view payload
  pub local : Shows (ip_text local_addr) r.local_address
  pub port : r.local_port ≡ port_of local_addr
  pub remote : Shows (ip_text remote_addr) r.remote_address
  pub remote_number : r.remote_port ≡ port_of remote_addr

pub packet_request-IsPacket :
    (k : ℕ) (p : SipTransportProtocol) (l r : SocketAddr) (d : List ℕ)
    → p ≢ tls
    → IsPacket k p l r d (packet_request k p l r d)
unfolding packet_request
packet_request-IsPacket k p l r d n = record {
  association = refl;
  route = transport_id-IsTransport p n;
  content = refl;
  local = refl;
  port = refl;
  remote = refl;
  remote_number = refl;
}

or_empty-ShowsOrder :
    (call_id : Option Text) (cseq : Option ℕ)
    → valid_registration_order call_id cseq ≡ true
    → ShowsOrder call_id cseq (view (as_bytes (or_empty call_id))) (or_default cseq)
unfolding valid_registration_order as_bytes
or_empty-ShowsOrder none none h = (refl, refl)
or_empty-ShowsOrder none (some cseq) h = absurd (ground arith)
or_empty-ShowsOrder (some t) none h = absurd (ground arith)
or_empty-ShowsOrder (some t) (some cseq) h = (refl, refl)

pub recovery_request-IsRecovery :
    (stopped : Bool) (s : SipRecoverySource)
    → CanRecover stopped s
    → IsRecovery s (recovery_request s)
unfolding recovery_request
recovery_request-IsRecovery stopped s c = record {
  route = transport_id-IsTransport s.protocol c.route;
  device = refl;
  address = refl;
  order = or_empty-ShowsOrder s.registration_call_id s.registration_cseq c.order;
  lifetime = omega arith;
}
