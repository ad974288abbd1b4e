-- ===== src/Tests/Runtime.antt =====
-- The operations of src/runtime.rs over a shim that records the calls it gets.
use gmv_pjsip.Prelude.{◌≡◌, refl, true, false, List, [], ◌∷◌, some, none, arith, length}
use gmv_pjsip.Prelude.Int.{pos}
use gmv_pjsip.Text.{codes, as_bytes, eq_text}
use gmv_pjsip.Transport.{udp, tcp, SocketAddr, v4}
use gmv_pjsip.Runtime.Types.{
  SipOutboundMessage, SipOutboundInvite, SipOutboundSubscribe, SipInviteResponse,
}
use gmv_pjsip.Runtime.Ffi.{Shim, ShimCall}
use gmv_pjsip.Runtime.State.{
  SipRuntime, receive, send_done, transport_closed, sent, invoke, checked,
}
use gmv_pjsip.Runtime.Sequence.{next_sip_cseq}
use gmv_pjsip.Runtime.Boundary.{WellFormed}
use gmv_pjsip.Runtime.Operations.{Operation, step, run}
use gmv_pjsip.Runtime.Operations.History.{run-keeps}
use gmv_pjsip.Runtime.Operations.Stopped.{run_stopped}
use gmv_pjsip.Runtime.Lifecycle
use gmv_pjsip.Runtime.Packets
use gmv_pjsip.Runtime.Sources
use gmv_pjsip.Runtime.Outbound
use gmv_pjsip.Runtime.Dialog
use gmv_pjsip.Runtime.Accepts.{CanSendMessage, CanSubscribe, CanRespond}
use gmv_pjsip.Runtime.Outcomes.{
  Outcome, SentMessage, SentSubscribe, Responded, send_message-Outcome, send_subscribe-Outcome,
  respond_invite-Outcome,
}

abbrev recorder : Shim
recorder = record {
  State = List ShimCall;
  invoke = λ call calls. (pos 0, call ∷ calls);
  algorithm_id = λ _. pos 1;
  credential_id = λ _. pos 2;
}

abbrev AllWellFormed : List ShimCall → Type 0
AllWellFormed [] = Unit {0}
AllWellFormed (c ∷ cs) = WellFormed c × AllWellFormed cs

abbrev fresh : SipRuntime recorder
fresh = record { raw = []; stopped = false; events = []; io_commands = []; sip_cseq = 0 }

abbrev camera : SocketAddr
camera = v4 10 0 0 7 5060

abbrev catalog : SipOutboundMessage
catalog = record {
  operation_id = 9;
  association_id = 4;
  protocol = tcp;
  target_uri = codes "sip:34020000001320000001@10.0.0.7";
  to_uri = none;
  from_uri = codes "sip:34020000002000000001@10.0.0.1";
  content_type = codes "Application/MANSCDP+xml";
  body = codes "<Query/>";
}

abbrev history : List Operation
history =
    Operation.enqueue (receive 4 tcp camera camera (codes "MESSAGE"))
    ∷ Operation.enqueue (send_done 3 (sent 120))
    ∷ Operation.enqueue (transport_closed 4 tcp camera camera (pos 1))
    ∷ Operation.poll
    ∷ Operation.send_message catalog
    ∷ Operation.send_message (record catalog { operation_id = 0 })
    ∷ Operation.stop
    ∷ Operation.send_message catalog
    ∷ []

run-keeps_example : AllWellFormed (run fresh history).raw
run-keeps_example =
    run-keeps AllWellFormed (λ call calls w p. (w, p)) history fresh (omega arith) tt tt

-- One receipt, one completion, one close, the poll, one request and the stop.
history_calls : length (run fresh history).raw ≡ 6
unfolding run step checked invoke Lifecycle.stop Lifecycle.poll Lifecycle.drain_io_commands
    Lifecycle.handle_command Packets.receive_packet Packets.complete_send Packets.close_transport
    Outbound.send_message next_sip_cseq as_bytes
history_calls = refl

abbrev halted : SipRuntime recorder
halted = record fresh { stopped = true; sip_cseq = 12 }

run_stopped_example :
    ((run halted history).raw ≡ [])
    × ((run halted history).stopped ≡ true)
    × ((run halted history).sip_cseq ≡ 12)
    × ((run halted history).events ≡ [])
run_stopped_example = run_stopped history halted refl (ground arith)

-- `remove_registered_source` does not look at the flag.
removal_after_stop :
    length (Sources.remove_registered_source halted (codes "34020000001320000001")).1.raw ≡ 1
unfolding Sources.remove_registered_source checked invoke as_bytes
removal_after_stop = refl

send_message-Outcome_example :
    Outcome
      (CanSendMessage false catalog)
      (SentMessage fresh catalog)
      fresh
      (Outbound.send_message fresh catalog)
send_message-Outcome_example = send_message-Outcome fresh catalog

abbrev play : SipOutboundInvite
play = record {
  operation_id = 10;
  association_id = 0;
  protocol = udp;
  identity = record { call_id = codes "c1"; local_tag = codes "t1"; local_cseq = 5 };
  target_uri = codes "sip:34020000001320000001@10.0.0.7";
  from_uri = codes "sip:34020000002000000001@10.0.0.1";
  contact_uri = codes "sip:34020000002000000001@10.0.0.1:5060";
  subject = some (codes "34020000001310000001:0,34020000002000000001:0");
  sdp = codes "v=0";
}

abbrev alarms : SipOutboundSubscribe
alarms = record {
  operation_id = 11;
  association_id = 0;
  protocol = udp;
  target_uri = codes "sip:34020000001320000001@10.0.0.7";
  from_uri = codes "sip:34020000002000000001@10.0.0.1";
  contact_uri = codes "sip:34020000002000000001@10.0.0.1:5060";
  call_id = none;
  event = codes "presence";
  expires = 3600;
  content_type = codes "Application/MANSCDP+xml";
  body = codes "<Query/>";
}

send_subscribe-Outcome_example :
    Outcome
      (CanSubscribe false alarms)
      (SentSubscribe fresh alarms)
      fresh
      (Outbound.send_subscribe fresh alarms)
send_subscribe-Outcome_example = send_subscribe-Outcome fresh alarms

abbrev accepted : SipInviteResponse
accepted = record {
  call_id = codes "c9";
  status_code = 200;
  reason = none;
  content_type = some (codes "application/sdp");
  body = codes "v=0";
}

respond_invite-Outcome_example :
    Outcome
      (CanRespond false accepted)
      (Responded fresh accepted)
      fresh
      (Dialog.respond_invite fresh accepted)
respond_invite-Outcome_example = respond_invite-Outcome fresh accepted

-- What the shim is told of the four requests.
abbrev sent_calls : List ShimCall
sent_calls =
    (run fresh (
      Operation.send_message catalog
      ∷ Operation.send_invite play
      ∷ Operation.send_subscribe alarms
      ∷ Operation.respond_invite accepted
      ∷ [])).raw

four_calls : length sent_calls ≡ 4
unfolding run step checked invoke Outbound.send_message Outbound.send_invite Outbound.send_subscribe
    Dialog.respond_invite next_sip_cseq as_bytes eq_text
four_calls = refl
