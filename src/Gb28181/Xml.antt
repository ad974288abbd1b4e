-- ===== src/Gb28181/Xml.antt =====
-- src/gb28181/xml.rs: the search for a tag's value, and the bodies that carry no fraction. The serial
-- number that `next_sn` draws at random is an argument.
pub mod RoundTrip
use gmv_pjsip.Prelude.{ℕ, ◌+◌, List, [], ◌∷◌, ◌++◌, Option, none, some, drop, take, length}
use gmv_pjsip.Text.{Text, codes, trim, find, print_uint}
use gmv_pjsip.Gb28181.Sdp.{crlf_lines}

abbrev pub content_type_manscdp_xml : Text
content_type_manscdp_xml = codes "Application/MANSCDP+xml"

abbrev pub content_type_mansrtsp : Text
content_type_mansrtsp = codes "Application/MANSRTSP"

abbrev pub open_tag : Text → Text
open_tag tag = b'<' ∷ (tag ++ b'>' ∷ [])

abbrev pub close_tag : Text → Text
close_tag tag = b'<' ∷ b'/' ∷ (tag ++ b'>' ∷ [])

-- The value in front of the closing tag, in what follows the opening one.
unfoldable pub value_before : Text → Text → Option Text
value_before close rest = elim (find close rest) [
  | none ↦ none
  | some end ↦ some (trim (take end rest))
]

unfoldable pub extract_xml_value_lossy : Text → Text → Option Text
unfolding value_before
extract_xml_value_lossy xml tag = elim (find (open_tag tag) xml) [
  | none ↦ none
  | some i ↦ value_before (close_tag tag) (drop (i + length (open_tag tag)) xml)
]

abbrev pub cmd_type_lossy : Text → Option Text
cmd_type_lossy xml = extract_xml_value_lossy xml (codes "CmdType")

abbrev pub device_id_lossy : Text → Option Text
device_id_lossy xml = extract_xml_value_lossy xml (codes "DeviceID")

abbrev pub session_id_lossy : Text → Option Text
session_id_lossy xml = extract_xml_value_lossy xml (codes "SessionID")

-- `<tag>value</tag>`
abbrev pub element : Text → Text → Text
element tag value = open_tag tag ++ (value ++ close_tag tag)

unfoldable pub build_preset_query_xml : Text → Text → Text
unfolding crlf_lines
build_preset_query_xml sn device_id = crlf_lines (
    codes "<?xml version=\"1.0\" encoding=\"GB2312\"?>"
    ∷ codes "<Query>"
    ∷ codes "<CmdType>PresetQuery</CmdType>"
    ∷ element (codes "SN") sn
    ∷ element (codes "DeviceID") device_id
    ∷ codes "</Query>"
    ∷ [])

unfoldable pub build_snapshot_control_xml : Text → Text → ℕ → ℕ → Text → Text → Text
unfolding crlf_lines
build_snapshot_control_xml sn channel_id snap_num interval upload_url session_id = crlf_lines (
    codes "<?xml version=\"1.0\"?>"
    ∷ codes "<Control>"
    ∷ codes "<CmdType>DeviceConfig</CmdType>"
    ∷ element (codes "SN") sn
    ∷ element (codes "DeviceID") channel_id
    ∷ codes "<SnapShotConfig>"
    ∷ element (codes "SnapNum") (print_uint snap_num)
    ∷ element (codes "Interval") (print_uint interval)
    ∷ element (codes "UploadURL") upload_url
    ∷ element (codes "SessionID") session_id
    ∷ codes "</SnapShotConfig>"
    ∷ codes "</Control>"
    ∷ [])
