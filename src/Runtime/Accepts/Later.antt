-- ===== src/Runtime/Accepts/Later.antt =====
-- Which requests inside a dialog, and which sources, src/runtime.rs accepts.
use gmv_pjsip.Prelude.{
  ℕ, ◌≤◌, ◌≡◌, ◌≢◌, ◌↔◌, Bool, true, false, ◌||◌, List, [], ◌∷◌, Option, some, arith, contains,
  is_empty, any,
}
use gmv_pjsip.Error.{ok}
use gmv_pjsip.Text.{Text}
use gmv_pjsip.Transport.{tls}
use gmv_pjsip.Runtime.Types.{
  SipDialogRequest, SipRestoredDialogRequest, SipDialogSnapshot, SipDialogMethod, info,
  SipRecoverySource,
}
use gmv_pjsip.Runtime.State.{u32_max, as_millis}
use gmv_pjsip.Runtime.Checks.{has_nul, has_control, max_cseq, valid_registration_order}
use gmv_pjsip.Runtime.Dialog.{check_dialog_request, check_restored}
use gmv_pjsip.Runtime.Sources.{check_recovery}
use gmv_pjsip.Runtime.Accepts.{IsRoutable, IsName, IfGiven}

-- An INFO needs a body, and a content type with a `/`.
abbrev pub IsComplete : SipDialogMethod → Option Text → List ℕ → Type 0
IsComplete method content_type body =
    method ≡ info → (body ≢ []) × ((t : Text) × (content_type ≡ some t) × (contains b'/' t ≡ true))

pub record CanSendInDialog (stopped : Bool) (r : SipDialogRequest) : Type 0 where
  pub active : stopped ≡ false
  pub operation : r.operation_id ≢ 0
  pub call : IsName r.call_id
  pub content : IfGiven r.content_type (λ t. has_nul t ≡ false)
  pub complete : IsComplete r.method r.content_type r.body

pub check_dialog_request_iff :
    (stopped : Bool) (r : SipDialogRequest)
    → (check_dialog_request stopped r ≡ ok tt) ↔ CanSendInDialog stopped r
unfolding check_dialog_request
check_dialog_request_iff stopped r = ground arith

abbrev pub IsLine : Text → Type 0
IsLine t = (t ≢ []) × (has_control t ≡ false)

abbrev pub AreLines : List Text → Type 0
AreLines [] = Unit {0}
AreLines (t ∷ ts) = IsLine t × AreLines ts

AreLines-iff :
    (ts : List Text) → (any (λ route. is_empty route || has_control route) ts ≡ false) ↔ AreLines ts
AreLines-iff [] = ground arith
AreLines-iff (t ∷ ts) = ground (arith, AreLines-iff ts)

pub record IsSnapshot (s : SipDialogSnapshot) : Type 0 where
  pub call : IsLine s.call_id
  pub local : IsLine s.local_uri
  pub remote : IsLine s.remote_uri
  pub tag : IsLine s.local_tag
  pub other_tag : IsLine s.remote_tag
  pub target : IsLine s.remote_target
  pub cseq : (1 ≤ s.local_cseq) × (s.local_cseq ≤ max_cseq)
  pub route : IsRoutable s.protocol s.association_id
  pub routes : AreLines s.route_set

pub record CanRestore (stopped : Bool) (r : SipRestoredDialogRequest) : Type 0 where
  pub active : stopped ≡ false
  pub operation : r.operation_id ≢ 0
  pub restored : IsSnapshot r.snapshot
  pub content : IfGiven r.content_type (λ t. has_control t ≡ false)
  pub complete : IsComplete r.method r.content_type r.body

pub check_restored_iff :
    (stopped : Bool) (r : SipRestoredDialogRequest)
    → (check_restored stopped r ≡ ok tt) ↔ CanRestore stopped r
unfolding check_restored
check_restored_iff stopped r = ground (arith, AreLines-iff r.snapshot.route_set)

pub record CanRecover (stopped : Bool) (s : SipRecoverySource) : Type 0 where
  pub active : stopped ≡ false
  pub route : s.protocol ≢ tls
  pub device : IsName s.device_id
  pub address : IsName s.remote_address
  pub order : valid_registration_order s.registration_call_id s.registration_cseq ≡ true
  pub lifetime : (1 ≤ as_millis s.ttl) × (as_millis s.ttl ≤ u32_max)

pub check_recovery_iff :
    (stopped : Bool) (s : SipRecoverySource)
    → (check_recovery stopped s ≡ ok tt) ↔ CanRecover stopped s
unfolding check_recovery
check_recovery_iff stopped s = ground arith
