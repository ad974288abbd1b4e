-- ===== src/Gb28181/Xml/RoundTrip.antt =====
-- What the builders of src/gb28181/xml.rs write is found again by the search for tags.
use gmv_pjsip.Prelude.{
  ℕ, ◌+◌, ◌≡◌, refl, sym, ap, ◌∙◌, true, false, [], ◌∷◌, ◌++◌, Option, none, some, arith, length,
  contains, append_assoc, take-length, drop-length, length-append,
}
use gmv_pjsip.Text.{Text, codes, trim, find, starts_with}
use gmv_pjsip.Io.Framing.Search.{find-append}
use gmv_pjsip.Gb28181.Xml.{
  open_tag, close_tag, value_before, extract_xml_value_lossy, element, device_id_lossy,
  build_preset_query_xml,
}

-- The pattern stands behind the text, and not before.
abbrev pub IsFirst : Text → Text → Type 0
IsFirst pat t = find pat (t ++ pat) ≡ some (length t)

abbrev shift : ℕ → Option ℕ → Option ℕ
shift n none = none
shift n (some i) = some (n + i)

-- A text without the first character of the pattern is passed over.
find-skip :
    (c : ℕ) (p t rest : Text)
    → contains c t ≡ false
    → find (c ∷ p) (t ++ rest) ≡ shift (length t) (find (c ∷ p) rest)
unfolding find starts_with
find-skip c p [] rest h = ground arith
find-skip c p (x ∷ t) rest h = ground (arith, find-skip c p t rest)

parted :
    (before tag value after : Text)
    → before ++ (element tag value ++ after)
      ≡ (before ++ open_tag tag) ++ (value ++ (close_tag tag ++ after))
parted before tag value after = simp append_assoc

value_before-close :
    (close value after : Text)
    → IsFirst close value
    → value_before close (value ++ (close ++ after)) ≡ some (trim value)
unfolding value_before
value_before-close close value after g =
    let ahead : find close (value ++ (close ++ after)) ≡ some (length value) =
      rw (← append_assoc value close after)
        (find-append close (value ++ close) after (length value) g) in
    rw (ahead, value_before) (rw (take-length value (close ++ after)) refl)

-- The value of the first element with the tag comes out trimmed, if the closing tag does not stand in
-- it.
pub extract_xml_value_lossy-element :
    (before tag value after : Text)
    → IsFirst (open_tag tag) before
    → IsFirst (close_tag tag) value
    → extract_xml_value_lossy (before ++ (element tag value ++ after)) tag ≡ some (trim value)
unfolding extract_xml_value_lossy
extract_xml_value_lossy-element before tag value after f g =
    let rest = value ++ (close_tag tag ++ after) in
    let found = find-append (open_tag tag) (before ++ open_tag tag) rest (length before) f in
    rw (parted before tag value after) (
      rw (found, extract_xml_value_lossy)
        (rw (← length-append before (open_tag tag), drop-length (before ++ open_tag tag) rest)
          (value_before-close (close_tag tag) value after g)))

starts_with-same : (p : Text) → starts_with p p ≡ true
unfolding starts_with
starts_with-same [] = refl
starts_with-same (c ∷ p) = ground (arith, starts_with-same p)

find-same : (c : ℕ) (p : Text) → find (c ∷ p) (c ∷ p) ≡ some 0
unfolding find
find-same c p = rw (starts_with-same (c ∷ p)) refl

-- A text without `<` does not contain a tag.
IsFirst-plain : (c : ℕ) (p t : Text) → contains c t ≡ false → IsFirst (c ∷ p) t
IsFirst-plain c p t h =
    find-skip c p t (c ∷ p) h ∙ ap (shift (length t)) (find-same c p) ∙ ap some (omega arith)

abbrev device_id_tag : Text
device_id_tag = codes "DeviceID"

abbrev sn_line_end : Text
sn_line_end = codes "</SN>\r\n"

abbrev query_head : Text
query_head =
    codes
      "<?xml version=\"1.0\" encoding=\"GB2312\"?>\r\n<Query>\r\n<CmdType>PresetQuery</CmdType>\r\n<SN>"

sn_line-IsFirst :
    (sn : Text) → contains b'<' sn ≡ false → IsFirst (open_tag device_id_tag) (sn ++ sn_line_end)
unfolding find starts_with
sn_line-IsFirst sn s = rw (append_assoc sn sn_line_end (open_tag device_id_tag)) (
    find-skip b'<' (codes "DeviceID>") sn (sn_line_end ++ open_tag device_id_tag) s
    ∙ ap some (sym (length-append sn sn_line_end)))

query-IsFirst :
    (sn : Text)
    → contains b'<' sn ≡ false
    → IsFirst (open_tag device_id_tag) (query_head ++ (sn ++ sn_line_end))
unfolding find starts_with
query-IsFirst sn s = rw (sn_line-IsFirst sn s) refl

-- The device's number is read back from a preset query, trimmed, as long as neither it nor the serial
-- number contains `<`.
pub device_id_lossy-build_preset_query_xml :
    (sn device_id : Text)
    → contains b'<' sn ≡ false
    → contains b'<' device_id ≡ false
    → device_id_lossy (build_preset_query_xml sn device_id) ≡ some (trim device_id)
unfolding build_preset_query_xml
device_id_lossy-build_preset_query_xml sn device_id s d =
    let after = codes "\r\n</Query>\r\n" in
    let read =
      extract_xml_value_lossy-element (query_head ++ (sn ++ sn_line_end)) device_id_tag device_id
        after (query-IsFirst sn s) (IsFirst-plain b'<' (codes "/DeviceID>") device_id d) in
    let rest = element device_id_tag device_id ++ after in
    let line = rw (append_assoc sn sn_line_end rest) at read in
    rw (append_assoc sn (codes "</SN>") (b'\r' ∷ b'\n' ∷ rest)) line
