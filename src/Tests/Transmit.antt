-- ===== src/Tests/Transmit.antt =====
-- Sends of src/io.rs at a table with one writer.
use gmv_pjsip.Prelude.{◌≡◌, refl, [], ◌∷◌, ◌++◌, map, true, some}
use gmv_pjsip.Text.{codes}
use gmv_pjsip.Transport.{tcp, v4}
use gmv_pjsip.Runtime.Types.{SipTransmit}
use gmv_pjsip.Io.Transmit.{Writer, try_queue}
use gmv_pjsip.Io.Transmit.Delivery.{write_rounds, written_report, write_rounds-try_queue}
use gmv_pjsip.Io.Launch.{Turn, outgoing}

abbrev notify : SipTransmit
notify = record {
  send_id = 5;
  transport_id = 1;
  association_id = 8;
  protocol = tcp;
  payload = codes "NOTIFY";
  local_addr = v4 10 0 0 1 5060;
  remote_addr = v4 10 0 0 7 5060;
}

abbrev writer : Writer
writer = record { pending = notify ∷ notify ∷ []; receiving = true }

abbrev queued_writer : Writer
queued_writer = record { pending = notify ∷ notify ∷ notify ∷ []; receiving = true }

notify_queued : try_queue notify writer ≡ some queued_writer
unfolding try_queue
notify_queued = refl

write_rounds-try_queue_example : write_rounds 3 queued_writer ≡ (
  record writer { pending = [] },
  map written_report (notify ∷ notify ∷ []) ++ (written_report notify ∷ []),
)
write_rounds-try_queue_example = write_rounds-try_queue notify writer queued_writer notify_queued

abbrev requested : Turn
requested = outgoing (some 6) notify
