-- ===== src/Message.antt =====
-- src/message.rs: SIP methods, and the parts of a header value.
pub mod Method
pub mod Header
use gmv_pjsip.Prelude.{
  ℕ, ◌+◌, List, [], ◌∷◌, Option, none, some, ltb, if◌then◌else◌, is_empty, take, drop,
}
use gmv_pjsip.Text.{
  Text, codes, eq_text, eq_ignore_ascii_case, to_ascii_uppercase, trim, trim_quotes, split,
  split_once, find,
}

pub data SipMethod : Type 0 where
  ack bye cancel info invite message notify options : SipMethod
  prack publish refer register subscribe update : SipMethod
  other : Text → SipMethod

-- The `match` of `parse`, on the trimmed and upper-cased value.
unfoldable pub of_token : Text → SipMethod
of_token t =
    if eq_text t (codes "ACK")
    then ack
    else if eq_text t (codes "BYE")
    then bye
    else if eq_text t (codes "CANCEL")
    then cancel
    else if eq_text t (codes "INFO")
    then info
    else if eq_text t (codes "INVITE")
    then invite
    else if eq_text t (codes "MESSAGE")
    then message
    else if eq_text t (codes "NOTIFY")
    then notify
    else if eq_text t (codes "OPTIONS")
    then options
    else if eq_text t (codes "PRACK")
    then prack
    else if eq_text t (codes "PUBLISH")
    then publish
    else if eq_text t (codes "REFER")
    then refer
    else if eq_text t (codes "REGISTER")
    then register
    else if eq_text t (codes "SUBSCRIBE")
    then subscribe
    else if eq_text t (codes "UPDATE")
    then update
    else other t

unfoldable pub parse : Text → SipMethod
unfolding of_token
parse value = of_token (to_ascii_uppercase (trim value))

unfoldable pub as_str : SipMethod → Text
as_str ack = codes "ACK"
as_str bye = codes "BYE"
as_str cancel = codes "CANCEL"
as_str info = codes "INFO"
as_str invite = codes "INVITE"
as_str message = codes "MESSAGE"
as_str notify = codes "NOTIFY"
as_str options = codes "OPTIONS"
as_str prack = codes "PRACK"
as_str publish = codes "PUBLISH"
as_str refer = codes "REFER"
as_str register = codes "REGISTER"
as_str subscribe = codes "SUBSCRIBE"
as_str update = codes "UPDATE"
as_str (other value) = value

-- `part.trim().splitn(2, '=')`: the name, and the value or nothing
unfoldable pub name_and_value : Text → Text × Text
name_and_value part = elim (split_once b'=' (trim part)) [
  | none ↦ (trim (trim part), trim_quotes (trim []))
  | some (name, value) ↦ (trim name, trim_quotes (trim value))
]

-- The loop over the parts behind the first `;`.
unfoldable pub param_in : List Text → Text → Option Text
unfolding name_and_value
param_in [] key = none
param_in (part ∷ parts) key =
    if eq_ignore_ascii_case (name_and_value part).0 key
    then some (name_and_value part).1
    else param_in parts key

unfoldable pub extract_param : Text → Text → Option Text
unfolding param_in
extract_param value key = param_in (drop 1 (split b';' value)) key

pub extract_tag : Text → Option Text
extract_tag value = extract_param value (codes "tag")

-- The part of `extract_uri` behind the search for angle brackets.
bare_uri : Text → Option Text
bare_uri value =
    let end : Text = elim (find (codes ";") value) [ none ↦ value | some i ↦ take i value ] in
    if is_empty (trim end) then none else some (trim end)

uri_within : Text → Option ℕ → Option ℕ → Option Text
unfolding bare_uri
uri_within value (some start) (some end) =
    if ltb (start + 1) end then some (trim (drop (start + 1) (take end value))) else bare_uri value
uri_within value _ _ = bare_uri value

unfoldable pub extract_uri : Text → Option Text
unfolding uri_within
extract_uri value =
    let value' = trim value in uri_within value' (find (codes "<") value') (find (codes ">") value')
