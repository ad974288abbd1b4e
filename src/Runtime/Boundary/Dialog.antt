-- ===== src/Runtime/Boundary/Dialog.antt =====
-- Requests and responses inside a dialog that pass the checks are well formed.
use gmv_pjsip.Prelude.{◌≡◌, Bool, arith}
use gmv_pjsip.Error.{ok}
use gmv_pjsip.Text.{eq_text, as_bytes-is_empty}
use gmv_pjsip.Runtime.Types.{SipDialogRequest, SipRestoredDialogRequest, SipInviteResponse}
use gmv_pjsip.Runtime.Ffi.{or_empty}
use gmv_pjsip.Runtime.Dialog.{
  check_dialog_request, dialog_request, check_restored, restored_request, check_response,
  response_request,
}
use gmv_pjsip.Runtime.Boundary.{DialogOk, RestoredOk, ResponseOk}

pub dialog_request-DialogOk :
    (stopped : Bool) (r : SipDialogRequest)
    → check_dialog_request stopped r ≡ ok tt
    → DialogOk (dialog_request r)
unfolding check_dialog_request dialog_request
dialog_request-DialogOk stopped r h =
    ground (arith, as_bytes-is_empty r.call_id, as_bytes-is_empty (or_empty r.content_type))

pub restored_request-RestoredOk :
    (stopped : Bool) (r : SipRestoredDialogRequest)
    → check_restored stopped r ≡ ok tt
    → RestoredOk (restored_request r)
unfolding check_restored restored_request
restored_request-RestoredOk stopped r h = ground (
  arith,
  as_bytes-is_empty r.snapshot.call_id,
  as_bytes-is_empty r.snapshot.local_uri,
  as_bytes-is_empty r.snapshot.remote_uri,
  as_bytes-is_empty r.snapshot.local_tag,
  as_bytes-is_empty r.snapshot.remote_tag,
  as_bytes-is_empty r.snapshot.remote_target,
  as_bytes-is_empty (or_empty r.content_type),
)

pub response_request-ResponseOk :
    (stopped : Bool) (r : SipInviteResponse)
    → check_response stopped r ≡ ok tt
    → ResponseOk (response_request r)
unfolding check_response response_request eq_text
response_request-ResponseOk stopped r h =
    ground (arith, as_bytes-is_empty r.call_id, as_bytes-is_empty (or_empty r.content_type))
