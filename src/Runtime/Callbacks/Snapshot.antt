-- ===== src/Runtime/Callbacks/Snapshot.antt =====
-- From the snapshot of a dialog in an event to a request in the dialog that is restored from it, in
-- src/runtime.rs.
use gmv_pjsip.Prelude.{
  ℕ, ◌≤◌, ◌≡◌, ◌≢◌, refl, Bool, true, false, not, ◌&&◌, [], Option, none, some, arith, is_empty,
  ◌==◌,
}
use gmv_pjsip.Prelude.Int.{ℤ, pos, negsuc}
use gmv_pjsip.Error.{ok}
use gmv_pjsip.Text.{Text}
use gmv_pjsip.Text.Utf8.Ascii.{from_utf8_lossy-is_empty}
use gmv_pjsip.Transport.{SipTransportProtocol, tcp}
use gmv_pjsip.Runtime.Types.{SipDialogSnapshot, SipRestoredDialogRequest, bye}
use gmv_pjsip.Runtime.Ffi.{StringView, null, view}
use gmv_pjsip.Runtime.Checks.{has_control, is_tls, max_cseq}
use gmv_pjsip.Runtime.Dialog.{check_restored}
use gmv_pjsip.Runtime.Accepts.Later.{AreLines, IsSnapshot, check_restored_iff}
use gmv_pjsip.Runtime.Copies.{SipEvent, copy_string_view, copy_transport, copy_dialog_snapshot}

-- What `?` lets through of a text, and of a protocol.
abbrev is_text : Option Text → Bool
is_text none = true
is_text (some t) = not (is_empty t)

abbrev is_served : Option SipTransportProtocol → Bool
is_served none = true
is_served (some p) = not (is_tls p)

copy_string_view-is_text : (v : StringView) → is_text (copy_string_view v) ≡ true
unfolding copy_string_view
copy_string_view-is_text null = refl
copy_string_view-is_text (view bytes) = ground (arith, from_utf8_lossy-is_empty bytes)

copy_transport-is_served : (n : ℤ) → is_served (copy_transport n) ≡ true
unfolding copy_transport
copy_transport-is_served (negsuc n) = refl
copy_transport-is_served (pos n) = ground arith

-- What every copied snapshot has: its texts are there, and it is not of TLS.
identified : SipDialogSnapshot → Bool
identified s =
    not (is_empty s.call_id)
    && not (is_empty s.local_uri)
    && not (is_empty s.remote_uri)
    && not (is_empty s.local_tag)
    && not (is_empty s.remote_tag)
    && not (is_empty s.remote_target)
    && not (s.local_cseq == 0)
    && not (is_tls s.protocol)

copy_dialog_snapshot-identified :
    (e : SipEvent) (s : SipDialogSnapshot) → copy_dialog_snapshot e ≡ some s → identified s ≡ true
unfolding copy_dialog_snapshot identified
copy_dialog_snapshot-identified e s c = ground (
  arith,
  copy_string_view-is_text e.call_id,
  copy_string_view-is_text e.dialog_local_uri,
  copy_string_view-is_text e.dialog_remote_uri,
  copy_string_view-is_text e.dialog_local_tag,
  copy_string_view-is_text e.dialog_remote_tag,
  copy_string_view-is_text e.dialog_remote_target,
  copy_transport-is_served e.transport,
)

-- The texts of a snapshot go into header lines.
unfoldable pub clean : SipDialogSnapshot → Bool
clean s =
    not (has_control s.call_id)
    && not (has_control s.local_uri)
    && not (has_control s.remote_uri)
    && not (has_control s.local_tag)
    && not (has_control s.remote_tag)
    && not (has_control s.remote_target)

abbrev pub bye_within : SipDialogSnapshot → ℕ → SipRestoredDialogRequest
bye_within s operation_id = record {
  operation_id = operation_id;
  method = bye;
  snapshot = s;
  content_type = none;
  body = [];
}

identified-IsSnapshot :
    (s : SipDialogSnapshot)
    → identified s ≡ true
    → clean s ≡ true
    → s.local_cseq ≤ max_cseq
    → (s.protocol ≡ tcp → s.association_id ≢ 0)
    → AreLines s.route_set
    → IsSnapshot s
unfolding identified clean
identified-IsSnapshot s i c q r lines = ground arith

-- The dialog of an event can be ended after a restart: a BYE in a dialog restored from the snapshot that
-- an event carries passes the checks of an active runtime, if the texts of the snapshot hold no NUL,
-- CR or LF, its CSeq number is one of SIP, its routes are lines that are not empty, and the caller
-- names an operation and, for TCP, an association.
pub check_restored-copy_dialog_snapshot :
    (e : SipEvent) (s : SipDialogSnapshot) (operation_id : ℕ)
    → copy_dialog_snapshot e ≡ some s
    → clean s ≡ true
    → s.local_cseq ≤ max_cseq
    → AreLines s.route_set
    → operation_id ≢ 0
    → (s.protocol ≡ tcp → s.association_id ≢ 0)
    → check_restored false (bye_within s operation_id) ≡ ok tt
check_restored-copy_dialog_snapshot e s operation_id c k q lines o r =
    (check_restored_iff false (bye_within s operation_id)).1 (record {
      active = refl;
      operation = o;
      restored = identified-IsSnapshot s (copy_dialog_snapshot-identified e s c) k q r lines;
      content = tt;
      complete = λ h. absurd (ground arith);
    })
