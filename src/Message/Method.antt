-- ===== src/Message/Method.antt =====
-- The methods that src/message.rs reads and writes.
use gmv_pjsip.Prelude.{◌≡◌, ◌↔◌, refl, sym, ap, ◌∙◌, if◌then◌else◌, Bool-cases, inl, inr}
use gmv_pjsip.Text.{Text, codes, eq_text, eq_text_iff, to_ascii_uppercase, trim}
use gmv_pjsip.Message.{
  SipMethod, ack, bye, cancel, info, invite, message, notify, options, prack, publish, refer,
  register, subscribe, update, of_token, parse, as_str,
}

named :
    (t name : Text) (m rest : SipMethod)
    → as_str m ≡ name
    → as_str rest ≡ t
    → as_str (if eq_text t name then m else rest) ≡ t
named t name m rest e r = elim (Bool-cases (eq_text t name)) [
  | inl y ↦ rw y (e ∙ sym ((eq_text_iff t name).0 y))
  | inr n ↦ rw n r
]

as_str-of_token : (t : Text) → as_str (of_token t) ≡ t
unfolding of_token as_str
as_str-of_token t = named t (codes "ACK") ack _ refl (
    named t (codes "BYE") bye _ refl (
      named t (codes "CANCEL") cancel _ refl (
        named t (codes "INFO") info _ refl (
          named t (codes "INVITE") invite _ refl (
            named t (codes "MESSAGE") message _ refl (
              named t (codes "NOTIFY") notify _ refl (
                named t (codes "OPTIONS") options _ refl (
                  named t (codes "PRACK") prack _ refl (
                    named t (codes "PUBLISH") publish _ refl (
                      named t (codes "REFER") refer _ refl (
                        named t (codes "REGISTER") register _ refl (
                          named t (codes "SUBSCRIBE") subscribe _ refl
                            (named t (codes "UPDATE") update _ refl refl)))))))))))))

-- The name of the method read from a text is the text, trimmed and in capital letters.
pub as_str-parse : (t : Text) → as_str (parse t) ≡ to_ascii_uppercase (trim t)
unfolding parse
as_str-parse t = as_str-of_token (to_ascii_uppercase (trim t))

-- Two texts are read as the same method exactly when they are equal but for white space around them
-- and the case of ASCII letters; so no two methods are confused, extensions included.
pub parse_iff :
    (s t : Text) → (parse s ≡ parse t) ↔ (to_ascii_uppercase (trim s) ≡ to_ascii_uppercase (trim t))
parse_iff s t =
    ((λ e. sym (as_str-parse s) ∙ ap as_str e ∙ as_str-parse t), λ e. unfold parse in ap of_token e)
