-- ===== src/Tests/Later.antt =====
-- Requests inside a dialog and recovery sources of src/runtime.rs at concrete inputs.
use gmv_pjsip.Prelude.{List, [], ◌∷◌, some, none, false}
use gmv_pjsip.Prelude.Int.{pos}
use gmv_pjsip.Text.{codes}
use gmv_pjsip.Transport.{tcp, udp, v4}
use gmv_pjsip.Runtime.Types.{
  SipDialogRequest, SipRestoredDialogRequest, SipRecoverySource, bye, info,
}
use gmv_pjsip.Runtime.Ffi.{Shim, ShimCall}
use gmv_pjsip.Runtime.State.{SipRuntime}
use gmv_pjsip.Runtime.Sources.{allow_recovery_source}
use gmv_pjsip.Runtime.Accepts.Later.{CanRecover}
use gmv_pjsip.Runtime.Outcomes.{Outcome}
use gmv_pjsip.Runtime.Outcomes.Later.{Allowed, allow_recovery_source-Outcome}

abbrev recorder : Shim
recorder = record {
  State = List ShimCall;
  invoke = λ call calls. (pos 0, call ∷ calls);
  algorithm_id = λ _. pos 1;
  credential_id = λ _. pos 2;
}

abbrev fresh : SipRuntime recorder
fresh = record { raw = []; stopped = false; events = []; io_commands = []; sip_cseq = 0 }

abbrev seek : SipDialogRequest
seek = record {
  operation_id = 4;
  method = info;
  call_id = codes "c1";
  content_type = some (codes "Application/MANSRTSP");
  body = codes "PLAY";
}

abbrev hang_up : SipRestoredDialogRequest
hang_up = record {
  operation_id = 5;
  method = bye;
  snapshot = record {
    call_id = codes "c1";
    local_uri = codes "sip:a@10.0.0.1";
    remote_uri = codes "sip:b@10.0.0.7";
    local_tag = codes "t1";
    remote_tag = codes "t2";
    local_cseq = 3;
    remote_target = codes "sip:b@10.0.0.7:5060";
    route_set = codes "<sip:p1>" ∷ codes "<sip:p2>" ∷ [];
    protocol = tcp;
    association_id = 8;
    local_addr = v4 10 0 0 1 5060;
    remote_addr = v4 10 0 0 7 5060;
  };
  content_type = none;
  body = [];
}

abbrev recovered : SipRecoverySource
recovered = record {
  device_id = codes "34020000001320000001";
  protocol = udp;
  remote_address = codes "10.0.0.7";
  registration_call_id = some (codes "r1");
  registration_cseq = some 2;
  ttl = 60000000000;
}

allow_recovery_source-Outcome_example :
    Outcome
      (CanRecover false recovered)
      (Allowed fresh recovered)
      fresh
      (allow_recovery_source fresh recovered)
allow_recovery_source-Outcome_example = allow_recovery_source-Outcome fresh recovered
