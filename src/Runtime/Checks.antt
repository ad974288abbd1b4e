-- ===== src/Runtime/Checks.antt =====
-- Tests that the operations of src/runtime.rs share.
use gmv_pjsip.Prelude.{
  ℕ, ◌-◌, ◌^◌, Bool, true, false, not, ◌&&◌, ◌||◌, Option, none, some, ltb, ◌==◌, any, contains,
  is_empty, List,
}
use gmv_pjsip.Text.{Text, as_bytes}
use gmv_pjsip.Transport.{SipTransportProtocol, udp, tcp, tls}
use gmv_pjsip.Runtime.Types.{SipDialogMethod, bye, info}

-- `value.as_bytes().contains(&0)`
abbrev pub has_nul : Text → Bool
has_nul value = contains 0 (as_bytes value)

abbrev pub is_control : ℕ → Bool
is_control byte = byte == 0 || byte == b'\r' || byte == b'\n'

-- `value.bytes().any(|byte| matches!(byte, b'\0' | b'\r' | b'\n'))`
abbrev pub has_control : Text → Bool
has_control value = any is_control (as_bytes value)

-- `is_some_and`
abbrev pub is_some_and {ℓ} : {A : Type ℓ} → Option A → (A → Bool) → Bool
is_some_and none p = false
is_some_and (some a) p = p a

abbrev pub is_none {ℓ} : {A : Type ℓ} → Option A → Bool
is_none none = true
is_none (some a) = false

abbrev pub is_tls : SipTransportProtocol → Bool
is_tls udp = false
is_tls tcp = false
is_tls tls = true

abbrev pub is_tcp : SipTransportProtocol → Bool
is_tcp udp = false
is_tcp tcp = true
is_tcp tls = false

-- TLS, or TCP with no association
abbrev pub lacks_association : SipTransportProtocol → ℕ → Bool
lacks_association protocol association_id =
    is_tls protocol || (is_tcp protocol && association_id == 0)

abbrev pub max_cseq : ℕ
max_cseq = 2 ^ 31 - 1

abbrev pub is_info : SipDialogMethod → Bool
is_info bye = false
is_info info = true

-- INFO with no body, or with a content type that is missing or holds no `/`
abbrev pub info_incomplete : SipDialogMethod → Option Text → List ℕ → Bool
info_incomplete method content_type body =
    is_info method && (is_empty body || not (is_some_and content_type (contains b'/')))

-- `valid_registration_order`
unfoldable pub valid_registration_order : Option Text → Option ℕ → Bool
valid_registration_order none none = true
valid_registration_order (some call_id) (some cseq) =
    not (is_empty call_id) && not (has_nul call_id) && ltb 0 cseq
valid_registration_order none (some cseq) = false
valid_registration_order (some call_id) none = false
