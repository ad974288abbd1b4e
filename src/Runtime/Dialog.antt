-- ===== src/Runtime/Dialog.antt =====
-- `send_dialog_request`, `send_restored_dialog_request` and `respond_invite` of src/runtime.rs:
-- requests and responses inside a dialog.
use gmv_pjsip.Prelude.{
  Bool, not, ◌&&◌, ◌||◌, List, [], ◌∷◌, ◌++◌, Option, ltb, leb, ◌==◌, is_empty, any,
}
use gmv_pjsip.Error.{invalid_config, Result, ◌>>◌, fail_if}
use gmv_pjsip.Text.{Text, codes, eq_text}
use gmv_pjsip.Transport.{port_of}
use gmv_pjsip.Transport.Display.{ip_text}
use gmv_pjsip.Runtime.Types.{SipDialogRequest, SipRestoredDialogRequest, SipInviteResponse}
use gmv_pjsip.Runtime.Ffi.{
  Shim, ShimCall, DialogRequest, RestoredDialogRequest, InviteResponse, transport_id,
  dialog_method_id, string_view, bytes_view, optional_view,
}
use gmv_pjsip.Runtime.State.{SipRuntime, invoke, checked}
use gmv_pjsip.Runtime.Checks.{
  has_nul, has_control, is_some_and, is_tls, is_tcp, max_cseq, info_incomplete,
}

-- The checks of `send_dialog_request`.
unfoldable pub check_dialog_request : Bool → SipDialogRequest → Result (Unit {0})
check_dialog_request stopped r = do
  fail_if stopped (invalid_config "cannot send dialog request after runtime stop")
  fail_if (r.operation_id == 0 || is_empty r.call_id)
      (invalid_config "operation_id and call_id are required")
  fail_if (has_nul r.call_id || is_some_and r.content_type has_nul)
      (invalid_config "dialog request strings must contain no NUL byte")
  fail_if (info_incomplete r.method r.content_type r.body)
      (invalid_config "INFO requires content_type and body")

unfoldable pub dialog_request : SipDialogRequest → DialogRequest
dialog_request r = record {
  operation_id = r.operation_id;
  method = dialog_method_id r.method;
  call_id = string_view r.call_id;
  content_type = optional_view r.content_type;
  body = bytes_view r.body;
}

-- The checks of `send_restored_dialog_request`.
unfoldable pub check_restored : Bool → SipRestoredDialogRequest → Result (Unit {0})
check_restored stopped r = do
  let s = r.snapshot
  fail_if stopped (invalid_config "cannot send restored dialog request after runtime stop")
  fail_if
      (r.operation_id == 0
        || is_empty s.call_id
        || is_empty s.local_uri
        || is_empty s.remote_uri
        || is_empty s.local_tag
        || is_empty s.remote_tag
        || is_empty s.remote_target
        || s.local_cseq == 0
        || ltb max_cseq s.local_cseq)
      (invalid_config "restored dialog identity and reserved local_cseq are required")
  fail_if (is_tls s.protocol) (invalid_config "TLS restored dialogs are not supported")
  fail_if (is_tcp s.protocol && s.association_id == 0)
      (invalid_config "TCP restored dialog requires a current association_id")
  fail_if
      (any has_control (
          s.call_id ∷ s.local_uri ∷ s.remote_uri ∷ s.local_tag ∷ s.remote_tag ∷ s.remote_target
          ∷ [])
        || is_some_and r.content_type has_control
        || any (λ route. is_empty route || has_control route) s.route_set)
      (invalid_config
        "restored dialog strings and routes must be non-empty and contain no control separator")
  fail_if (info_incomplete r.method r.content_type r.body)
      (invalid_config "INFO requires content_type and body")

-- `snapshot.route_set.join("\n")`
unfoldable pub join_lines : List Text → Text
join_lines [] = []
join_lines (t ∷ []) = t
join_lines (t ∷ u ∷ ts) = t ++ (b'\n' ∷ join_lines (u ∷ ts))

unfoldable pub restored_request : SipRestoredDialogRequest → RestoredDialogRequest
restored_request r =
    let s = r.snapshot in
    record {
      operation_id = r.operation_id;
      method = dialog_method_id r.method;
      association_id = s.association_id;
      transport = transport_id s.protocol;
      local_cseq = s.local_cseq;
      call_id = string_view s.call_id;
      local_uri = string_view s.local_uri;
      remote_uri = string_view s.remote_uri;
      local_tag = string_view s.local_tag;
      remote_tag = string_view s.remote_tag;
      remote_target = string_view s.remote_target;
      route_set = string_view (join_lines s.route_set);
      remote_address = string_view (ip_text s.remote_addr);
      remote_port = port_of s.remote_addr;
      content_type = optional_view r.content_type;
      body = bytes_view r.body;
    }

-- `content_type.as_deref() != Some("application/sdp")`
abbrev pub is_sdp : Option Text → Bool
is_sdp content_type = is_some_and content_type (λ value. eq_text value (codes "application/sdp"))

-- The checks of `respond_invite`.
unfoldable pub check_response : Bool → SipInviteResponse → Result (Unit {0})
check_response stopped r = do
  fail_if stopped (invalid_config "cannot respond to INVITE after runtime stop")
  fail_if (is_empty r.call_id || not (leb 200 r.status_code && leb r.status_code 699))
      (invalid_config "INVITE response requires call_id and status 200..699")
  fail_if (ltb r.status_code 300 && (not (is_sdp r.content_type) || is_empty r.body))
      (invalid_config "INVITE 2xx requires application/sdp body")
  fail_if (has_nul r.call_id || is_some_and r.reason has_nul || is_some_and r.content_type has_nul)
      (invalid_config "INVITE response strings must contain no NUL byte")

unfoldable pub response_request : SipInviteResponse → InviteResponse
response_request r = record {
  status_code = r.status_code;
  call_id = string_view r.call_id;
  reason = optional_view r.reason;
  content_type = optional_view r.content_type;
  body = bytes_view r.body;
}

module _ {shim : Shim} where
  unfoldable pub send_dialog_request :
      SipRuntime shim → SipDialogRequest → Result (Unit {0}) × SipRuntime shim
  unfolding check_dialog_request dialog_request
  send_dialog_request rt r =
      checked (check_dialog_request rt.stopped r) rt
        (invoke "send_dialog_request" (ShimCall.send_dialog_request (dialog_request r)) rt)

  unfoldable pub send_restored_dialog_request :
      SipRuntime shim → SipRestoredDialogRequest → Result (Unit {0}) × SipRuntime shim
  unfolding check_restored restored_request
  send_restored_dialog_request rt r = checked (check_restored rt.stopped r) rt (
      invoke "send_restored_dialog_request"
        (ShimCall.send_restored_dialog_request (restored_request r)) rt)

  unfoldable pub respond_invite :
      SipRuntime shim → SipInviteResponse → Result (Unit {0}) × SipRuntime shim
  unfolding check_response response_request
  respond_invite rt r =
      checked (check_response rt.stopped r) rt
        (invoke "respond_invite" (ShimCall.respond_invite (response_request r)) rt)
