-- ===== src/Runtime/Requests/Outbound.antt =====
-- The requests outside a dialog: MESSAGE, INVITE and SUBSCRIBE.
use gmv_pjsip.Prelude.{
  ℕ, ◌≡◌, ◌≢◌, ◌⊎◌, refl, ap, inl, inr, append_assoc, Bool, true, false, [], ◌∷◌, ◌++◌, Option,
  none, some, arith, all, contains,
}
use gmv_pjsip.Text.{Text, codes, as_bytes, is_ascii_digit, strip_prefix}
use gmv_pjsip.Text.Parts.{split_once-append}
use gmv_pjsip.Runtime.Types.{SipOutboundMessage, SipOutboundInvite, SipOutboundSubscribe}
use gmv_pjsip.Runtime.Ffi.{StringView, view, OutboundMessage, OutboundInvite, OutboundSubscribe}
use gmv_pjsip.Runtime.Outbound.{
  in_brackets, to_uri_or, message_request, invite_to_uri, to_uri_of, sip_host, subject_channel,
  invite_request, initial_cseq, subscribe_request,
}
use gmv_pjsip.Runtime.Checks.{is_none}
use gmv_pjsip.Runtime.Accepts.{CanSendMessage, CanInvite, CanSubscribe}
use gmv_pjsip.Runtime.Requests.{
  Shows, ShowsIfGiven, IsTransport, Follows, route-IsTransport, optional_view-ShowsIfGiven,
  next_sip_cseq-Follows,
}

-- The text where one is given, and else the other one.
abbrev pub ShowsOr : Text → Option Text → StringView → Type 0
ShowsOr other none v = Shows other v
ShowsOr other (some t) v = Shows t v

to_uri_or-ShowsOr :
    (target_uri : Text) (to_uri : Option Text)
    → ShowsOr target_uri to_uri (view (as_bytes (to_uri_or to_uri target_uri)))
to_uri_or-ShowsOr target_uri none = refl
to_uri_or-ShowsOr target_uri (some t) = refl

pub record IsMessage (cseq : ℕ) (m : SipOutboundMessage) (r : OutboundMessage) : Type 0 where
  pub operation : r.operation_id ≡ m.operation_id
  pub association : r.association_id ≡ m.association_id
  pub route : IsTransport m.protocol r.transport
  pub numbered : r.cseq ≡ cseq
  pub target : Shows m.target_uri r.target_uri
  pub to : ShowsOr m.target_uri m.to_uri r.to_uri
  pub from : Shows m.from_uri r.from_uri
  pub content : Shows m.content_type r.content_type
  pub payload : r.body ≡ view m.body

pub message_request-IsMessage :
    (stopped : Bool) (cseq : ℕ) (m : SipOutboundMessage)
    → CanSendMessage stopped m
    → IsMessage cseq m (message_request cseq m)
unfolding message_request
message_request-IsMessage stopped cseq m c = record {
  operation = refl;
  association = refl;
  route = route-IsTransport m.protocol m.association_id c.route;
  numbered = refl;
  target = refl;
  to = to_uri_or-ShowsOr m.target_uri m.to_uri;
  from = refl;
  content = refl;
  payload = refl;
}

-- To whom an INVITE goes: to the channel that its subject names, at the host of its target, if the target
-- is a `sip:` URI with a user and the channel is a number; to its target otherwise.
pub record IsInvited (target_uri : Text) (subject : Option Text) (v : StringView) : Type 0 where
  pub to_channel :
      (user host channel rest : Text)
      → target_uri ≡ codes "sip:" ++ (user ++ (b'@' ∷ host))
      → contains b'@' user ≡ false
      → subject ≡ some (channel ++ (b':' ∷ rest))
      → contains b':' channel ≡ false
      → channel ≢ []
      → all is_ascii_digit (as_bytes channel) ≡ true
      → Shows (codes "<sip:" ++ (channel ++ (b'@' ∷ (host ++ codes ">")))) v
  pub unnamed : subject ≡ none → Shows (b'<' ∷ (target_uri ++ codes ">")) v
  pub no_number :
      (channel rest : Text)
      → subject ≡ some (channel ++ (b':' ∷ rest))
      → contains b':' channel ≡ false
      → (channel ≡ []) ⊎ (all is_ascii_digit (as_bytes channel) ≡ false)
      → Shows (b'<' ∷ (target_uri ++ codes ">")) v
  pub no_sip :
      strip_prefix (codes "sip:") target_uri ≡ none → Shows (b'<' ∷ (target_uri ++ codes ">")) v

sip_host-append :
    (user host : Text)
    → contains b'@' user ≡ false
    → sip_host (codes "sip:" ++ (user ++ (b'@' ∷ host))) ≡ some host
unfolding sip_host strip_prefix
sip_host-append user host h = rw (split_once-append b'@' user host h, sip_host) refl

subject_channel-append :
    (channel rest : Text)
    → contains b':' channel ≡ false
    → subject_channel (some (channel ++ (b':' ∷ rest))) ≡ some channel
unfolding subject_channel
subject_channel-append channel rest h =
    rw (split_once-append b':' channel rest h, subject_channel) refl

to_uri_of-number :
    (target_uri host channel : Text)
    → channel ≢ []
    → all is_ascii_digit (as_bytes channel) ≡ true
    → to_uri_of target_uri (some host) (some channel)
      ≡ codes "<sip:" ++ (channel ++ (b'@' ∷ (host ++ codes ">")))
unfolding to_uri_of
to_uri_of-number target_uri host [] full digits = absurd (full refl)
to_uri_of-number target_uri host (c ∷ channel) full digits =
    rw digits (ap (λ t. codes "<sip:" ++ t) (append_assoc (c ∷ channel) (b'@' ∷ host) (codes ">")))

-- Every other target goes into brackets as it is.
to_uri_of-target :
    (target_uri : Text) (host channel : Option Text)
    → (host ≡ none)
      ⊎ (channel ≡ none)
      ⊎ ((t : Text) × (channel ≡ some t) × ((t ≡ []) ⊎ (all is_ascii_digit (as_bytes t) ≡ false)))
    → to_uri_of target_uri host channel ≡ in_brackets target_uri
unfolding to_uri_of
to_uri_of-target target_uri none none h = refl
to_uri_of-target target_uri none (some channel) h = refl
to_uri_of-target target_uri (some host) none h = refl
to_uri_of-target target_uri (some host) (some channel) h = ground arith

pub invite_to_uri-IsInvited :
    (target_uri : Text) (subject : Option Text)
    → IsInvited target_uri subject (view (as_bytes (invite_to_uri target_uri subject)))
unfolding invite_to_uri sip_host subject_channel
invite_to_uri-IsInvited target_uri subject =
    let other = to_uri_of-target target_uri (sip_host target_uri) (subject_channel subject) in
    record {
      to_channel = λ user host channel rest t u s c full digits.
          rw
            (
              t,
              s,
              invite_to_uri,
              sip_host-append user host u,
              subject_channel-append channel rest c,
              to_uri_of-number (codes "sip:" ++ (user ++ (b'@' ∷ host))) host channel full digits,
            )
            refl;
      unnamed = λ s. ap (λ x. view (as_bytes x)) (other (inr (inl (rw (s, subject_channel) refl))));
      no_number = λ channel rest s c n.
          ap (λ x. view (as_bytes x))
            (other (inr (inr (channel, rw s (subject_channel-append channel rest c), n))));
      no_sip = λ n. ap (λ x. view (as_bytes x)) (other (inl (rw (n, sip_host) refl)));
    }

pub record IsInvite (i : SipOutboundInvite) (r : OutboundInvite) : Type 0 where
  pub operation : r.operation_id ≡ i.operation_id
  pub association : r.association_id ≡ i.association_id
  pub route : IsTransport i.protocol r.transport
  pub numbered : r.local_cseq ≡ i.identity.local_cseq
  pub call : Shows i.identity.call_id r.call_id
  pub tag : Shows i.identity.local_tag r.local_tag
  pub target : Shows i.target_uri r.target_uri
  pub invited : IsInvited i.target_uri i.subject r.to_uri
  pub from : Shows i.from_uri r.from_uri
  pub contact : Shows i.contact_uri r.contact_uri
  pub subject_text : ShowsIfGiven i.subject r.subject
  pub session : Shows i.sdp r.sdp

-- The CSeq number of a SUBSCRIBE, and the counter behind it: an initial request takes the next number,
-- and one with a Call-ID takes none and says zero.
abbrev pub Numbers : Option Text → ℕ → ℕ → ℕ → Type 0
Numbers none c counter cseq = Follows c cseq × (counter ≡ cseq)
Numbers (some call_id) c counter cseq = (counter ≡ c) × (cseq ≡ 0)

pub initial_cseq-Numbers :
    (call_id : Option Text) (c : ℕ)
    → Numbers call_id c (initial_cseq (is_none call_id) c).0 (initial_cseq (is_none call_id) c).1
unfolding initial_cseq
initial_cseq-Numbers none c = next_sip_cseq-Follows c
initial_cseq-Numbers (some t) c = (refl, refl)

pub record IsSubscribe (cseq : ℕ) (s : SipOutboundSubscribe) (r : OutboundSubscribe) : Type 0 where
  pub operation : r.operation_id ≡ s.operation_id
  pub association : r.association_id ≡ s.association_id
  pub route : IsTransport s.protocol r.transport
  pub numbered : r.local_cseq ≡ cseq
  pub target : Shows s.target_uri r.target_uri
  pub from : Shows s.from_uri r.from_uri
  pub contact : Shows s.contact_uri r.contact_uri
  pub call : ShowsIfGiven s.call_id r.call_id
  pub about : Shows s.event r.event
  pub lifetime : r.expires ≡ s.expires
  pub content : Shows s.content_type r.content_type
  pub payload : r.body ≡ view s.body

pub invite_request-IsInvite :
    (stopped : Bool) (i : SipOutboundInvite) → CanInvite stopped i → IsInvite i (invite_request i)
unfolding invite_request
invite_request-IsInvite stopped i c = record {
  operation = refl;
  association = refl;
  route = route-IsTransport i.protocol i.association_id c.route;
  numbered = refl;
  call = refl;
  tag = refl;
  target = refl;
  invited = invite_to_uri-IsInvited i.target_uri i.subject;
  from = refl;
  contact = refl;
  subject_text = optional_view-ShowsIfGiven i.subject;
  session = refl;
}

pub subscribe_request-IsSubscribe :
    (stopped : Bool) (cseq : ℕ) (s : SipOutboundSubscribe)
    → CanSubscribe stopped s
    → IsSubscribe cseq s (subscribe_request cseq s)
unfolding subscribe_request
subscribe_request-IsSubscribe stopped cseq s c = record {
  operation = refl;
  association = refl;
  route = route-IsTransport s.protocol s.association_id c.route;
  numbered = refl;
  target = refl;
  from = refl;
  contact = refl;
  call = optional_view-ShowsIfGiven s.call_id;
  about = refl;
  lifetime = refl;
  content = refl;
  payload = refl;
}
