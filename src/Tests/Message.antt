-- ===== src/Tests/Message.antt =====
-- Methods and header values of src/message.rs.
use gmv_pjsip.Prelude.{◌≡◌, refl, List, [], ◌∷◌, ◌++◌}
use gmv_pjsip.Text.{codes, trim, trim_quotes, to_ascii_uppercase, eq_text}
use gmv_pjsip.Message.{notify, parse, extract_param}
use gmv_pjsip.Message.Header.{Param, ArePlain, written_all, lookup, extract_param-written_all}

read_notify : parse (codes " notify") ≡ notify
unfolding parse trim to_ascii_uppercase eq_text
read_notify = refl

abbrev params : List Param
params =
    record { name = codes "tag"; value = codes "remote" }
    ∷ record { name = codes "expires"; value = codes "3600" }
    ∷ []

plain : ArePlain params
unfolding trim trim_quotes
plain = (
  record {
    one_part = refl;
    no_equals = refl;
    trimmed = refl;
    trimmed_name = refl;
    trimmed_value = refl;
  },
  (
    record {
      one_part = refl;
      no_equals = refl;
      trimmed = refl;
      trimmed_name = refl;
      trimmed_value = refl;
    },
    tt,
  ),
)

extract_param-written_all_example :
    extract_param (codes "<sip:device@example.com>" ++ written_all params) (codes "Expires")
    ≡ lookup (codes "Expires") params
extract_param-written_all_example =
    extract_param-written_all (codes "<sip:device@example.com>") params (codes "Expires") refl plain
