-- ===== src/Runtime/Boundary.antt =====
-- What the shim may rely on: the conditions on the calls that src/runtime.rs makes.
pub mod Outbound
pub mod Dialog
pub mod Sources
pub mod Packets
use gmv_pjsip.Prelude.{
  ℕ, ◌-◌, ◌^◌, ◌≤◌, ◌<◌, ◌≡◌, ◌≢◌, ◌⊎◌, Bool, false, true, List, [], ◌∷◌, any, contains, is_empty,
}
use gmv_pjsip.Prelude.Int.{ℤ, pos, negsuc}
use gmv_pjsip.Runtime.Sequence.{max_sip_cseq}
use gmv_pjsip.Runtime.State.{u32_max}
use gmv_pjsip.Runtime.Checks.{is_control}
use gmv_pjsip.Runtime.Ffi.{
  StringView, null, view, ShimCall, AuthLookupCompletion, ReceivedPacket, SendCompletion,
  RegisteredSource, RecoverySource, IncomingInviteAllow, OutboundMessage, OutboundInvite,
  DialogRequest, RestoredDialogRequest, InviteResponse, OutboundSubscribe,
}

-- No NUL byte; and no NUL, CR or LF byte.
abbrev pub NulFree : StringView → Type 0
NulFree null = Unit
NulFree (view bytes) = contains 0 bytes ≡ false

abbrev pub ControlFree : StringView → Type 0
ControlFree null = Unit
ControlFree (view bytes) = any is_control bytes ≡ false

-- At least one byte.
abbrev pub Filled : StringView → Type 0
Filled null = ⊥
Filled (view bytes) = is_empty bytes ≡ false

-- UDP, or TCP with an association.
abbrev pub Routed : ℕ → ℕ → Type 0
Routed transport association_id = (transport ≡ 1) ⊎ ((transport ≡ 2) × (association_id ≢ 0))

abbrev pub IsCseq : ℕ → Type 0
IsCseq cseq = (1 ≤ cseq) × (cseq ≤ max_sip_cseq)

pub record MessageOk (r : OutboundMessage) : Type 0 where
  pub operation : r.operation_id ≢ 0
  pub routed : Routed r.transport r.association_id
  pub numbered : IsCseq r.cseq
  pub target : Filled r.target_uri × NulFree r.target_uri
  pub to : Filled r.to_uri × NulFree r.to_uri
  pub from : Filled r.from_uri × NulFree r.from_uri
  pub content : Filled r.content_type × NulFree r.content_type

pub record InviteOk (r : OutboundInvite) : Type 0 where
  pub operation : r.operation_id ≢ 0
  pub routed : Routed r.transport r.association_id
  pub numbered : IsCseq r.local_cseq
  pub call : Filled r.call_id × ControlFree r.call_id
  pub tag : Filled r.local_tag × ControlFree r.local_tag
  pub target : Filled r.target_uri × NulFree r.target_uri
  pub from : Filled r.from_uri × NulFree r.from_uri
  pub contact : Filled r.contact_uri × NulFree r.contact_uri
  pub subject_text : NulFree r.subject
  pub session : Filled r.sdp × NulFree r.sdp

-- An initial request has a CSeq of its own, and one that refreshes carries the Call-ID.
pub record SubscribeOk (r : OutboundSubscribe) : Type 0 where
  pub operation : r.operation_id ≢ 0
  pub routed : Routed r.transport r.association_id
  pub numbered :
      ((r.call_id ≡ null) × IsCseq r.local_cseq × (r.expires ≢ 0) × Filled r.target_uri)
      ⊎ (Filled r.call_id × NulFree r.call_id × (r.local_cseq ≡ 0))
  pub named : Filled r.event × NulFree r.event
  pub texts :
      NulFree r.target_uri × NulFree r.from_uri × NulFree r.contact_uri × NulFree r.content_type

pub record DialogOk (r : DialogRequest) : Type 0 where
  pub operation : r.operation_id ≢ 0
  pub method_known : (r.method ≡ 1) ⊎ ((r.method ≡ 2) × Filled r.content_type × Filled r.body)
  pub call : Filled r.call_id × NulFree r.call_id
  pub content : NulFree r.content_type

pub record RestoredOk (r : RestoredDialogRequest) : Type 0 where
  pub operation : r.operation_id ≢ 0
  pub method_known : (r.method ≡ 1) ⊎ ((r.method ≡ 2) × Filled r.content_type × Filled r.body)
  pub routed : Routed r.transport r.association_id
  pub numbered : IsCseq r.local_cseq
  pub call : Filled r.call_id × ControlFree r.call_id
  pub local_part : Filled r.local_uri × ControlFree r.local_uri
  pub remote_part : Filled r.remote_uri × ControlFree r.remote_uri
  pub local_name : Filled r.local_tag × ControlFree r.local_tag
  pub remote_name : Filled r.remote_tag × ControlFree r.remote_tag
  pub target : Filled r.remote_target × ControlFree r.remote_target
  pub content : ControlFree r.content_type

pub record ResponseOk (r : InviteResponse) : Type 0 where
  pub final : (200 ≤ r.status_code) × (r.status_code ≤ 699)
  pub call : Filled r.call_id × NulFree r.call_id
  pub answer : r.status_code < 300 → Filled r.body × Filled r.content_type
  pub texts : NulFree r.reason × NulFree r.content_type

abbrev pub IsTransport : ℕ → Type 0
IsTransport transport = (transport ≡ 1) ⊎ (transport ≡ 2)

pub record RegisteredOk (r : RegisteredSource) : Type 0 where
  pub transport_known : IsTransport r.transport
  pub device : Filled r.device_id × NulFree r.device_id
  pub address : Filled r.remote_address × NulFree r.remote_address
  pub order :
      ((r.registration_call_id ≡ view []) × (r.registration_cseq ≡ 0))
      ⊎ (Filled r.registration_call_id × NulFree r.registration_call_id × (r.registration_cseq ≢ 0))

pub record RecoveryOk (r : RecoverySource) : Type 0 where
  pub transport_known : IsTransport r.transport
  pub device : Filled r.device_id × NulFree r.device_id
  pub address : Filled r.remote_address × NulFree r.remote_address
  pub order :
      ((r.registration_call_id ≡ view []) × (r.registration_cseq ≡ 0))
      ⊎ (Filled r.registration_call_id × NulFree r.registration_call_id × (r.registration_cseq ≢ 0))
  pub bounded : (1 ≤ r.ttl_ms) × (r.ttl_ms ≤ u32_max)

pub record AllowOk (r : IncomingInviteAllow) : Type 0 where
  pub transport_known : IsTransport r.transport
  pub target : Filled r.target_id × NulFree r.target_id
  pub source : Filled r.source_id × NulFree r.source_id
  pub address : Filled r.remote_address × NulFree r.remote_address
  pub bounded : (1 ≤ r.ttl_ms) × (r.ttl_ms ≤ u32_max)

pub record PacketOk (r : ReceivedPacket) : Type 0 where
  pub filled : Filled r.payload
  pub routed : (r.transport ≡ 1) ⊎ (r.association_id ≢ 0)

-- The number of bytes fits an `i64`, and a failure is negative.
abbrev pub IsSentBytes : ℤ → Type 0
IsSentBytes (pos n) = n < 2 ^ 63
IsSentBytes (negsuc n) = n < 2 ^ 31

abbrev pub WellFormed : ShimCall → Type 0
WellFormed (ShimCall.complete_auth_lookup r) = (r.lookup_id ≢ 0) × (1 ≤ r.outcome) × (r.outcome ≤ 4)
WellFormed (ShimCall.receive_packet r) = PacketOk r
WellFormed (ShimCall.complete_send r) = (r.send_id ≢ 0) × IsSentBytes r.sent_bytes
WellFormed (ShimCall.close_transport association_id transport status) =
    (association_id ≢ 0) × (transport ≡ 2)
WellFormed (ShimCall.allow_registered_source r) = RegisteredOk r
WellFormed (ShimCall.allow_recovery_source r) = RecoveryOk r
WellFormed (ShimCall.remove_registered_source device_id) = Filled device_id × NulFree device_id
WellFormed (ShimCall.allow_incoming_invite r) = AllowOk r
WellFormed (ShimCall.send_message r) = MessageOk r
WellFormed (ShimCall.send_invite r) = InviteOk r
WellFormed (ShimCall.send_dialog_request r) = DialogOk r
WellFormed (ShimCall.send_restored_dialog_request r) = RestoredOk r
WellFormed (ShimCall.respond_invite r) = ResponseOk r
WellFormed (ShimCall.send_subscribe r) = SubscribeOk r
WellFormed ShimCall.start = Unit
WellFormed ShimCall.stop = Unit
WellFormed ShimCall.poll = Unit
WellFormed ShimCall.destroy = Unit
