-- ===== src/Tests/Gb28181.antt =====
-- Session descriptions and bodies of src/gb28181/ at concrete inputs.
use gmv_pjsip.Prelude.{◌≡◌, refl, some, arith}
use gmv_pjsip.Text.{codes, trim, is_whitespace}
use gmv_pjsip.Gb28181.Sdp.{
  PlaySdpOptions, TalkSdpOptions, g711_a, send_recv, build_play_sdp, build_talk_sdp, parse_lossy,
}
use gmv_pjsip.Gb28181.Sdp.Reading.{described}
use gmv_pjsip.Gb28181.Sdp.RoundTrip.{parse_lossy-build_play_sdp, parse_lossy-build_talk_sdp}
use gmv_pjsip.Gb28181.Xml.{device_id_lossy, build_preset_query_xml}
use gmv_pjsip.Gb28181.Xml.RoundTrip.{device_id_lossy-build_preset_query_xml}

abbrev live : PlaySdpOptions
live = record { ip = codes "10.0.0.1"; port = 30000; ssrc = 100; payload_type = 96 }

abbrev talk : TalkSdpOptions
talk = record {
  ip = codes "10.0.0.1";
  port = 30002;
  ssrc = 7;
  payload_type = 8;
  codec = g711_a;
  mode = send_recv;
}

parse_lossy-build_play_sdp_example :
    parse_lossy (build_play_sdp live)
    ≡ described (codes "Play") (codes "10.0.0.1") 30000 96 100 (build_play_sdp live)
unfolding is_whitespace
parse_lossy-build_play_sdp_example = parse_lossy-build_play_sdp live (refl, refl) (omega arith)

parse_lossy-build_talk_sdp_example :
    parse_lossy (build_talk_sdp talk)
    ≡ described (codes "Talk") (codes "10.0.0.1") 30002 8 7 (build_talk_sdp talk)
unfolding is_whitespace
parse_lossy-build_talk_sdp_example = parse_lossy-build_talk_sdp talk (refl, refl) (omega arith)

device_id_lossy-build_preset_query_xml_example :
    device_id_lossy (build_preset_query_xml (codes "a1B2c3D4") (codes "34020000001320000001"))
    ≡ some (trim (codes "34020000001320000001"))
device_id_lossy-build_preset_query_xml_example =
    device_id_lossy-build_preset_query_xml (codes "a1B2c3D4") (codes "34020000001320000001") refl
      refl
