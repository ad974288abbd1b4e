-- ===== src/Auth/Digest.antt =====
-- `build_www_authenticate` and `parse_digest_authorization` of src/auth/mod.rs.
use gmv_pjsip.Prelude.{List, [], ◌∷◌, ◌++◌, none, some}
use gmv_pjsip.Text.{
  Text, codes, trim, trim_quotes, to_ascii_lowercase, split, split_once, strip_prefix,
}
use gmv_pjsip.TextMap.{TextMap, insert}
use gmv_pjsip.Auth.{AuthAlgorithm, iana_name}

unfoldable pub build_www_authenticate : Text → Text → AuthAlgorithm → Text
build_www_authenticate realm nonce algorithm =
    codes "Digest realm=\""
    ++ (realm
        ++ (codes "\", nonce=\""
            ++ (nonce
                ++ (codes "\", algorithm=" ++ (iana_name algorithm ++ codes ", qop=\"auth\"")))))

-- The body of the loop over the parts: a part with no `=` is passed over.
unfoldable pub insert_part : TextMap Text → Text → TextMap Text
insert_part out part = elim (split_once b'=' (trim part)) [
  | none ↦ out
  | some (k, v) ↦ insert (to_ascii_lowercase (trim k)) (trim_quotes (trim v)) out
]

unfoldable pub insert_parts : TextMap Text → List Text → TextMap Text
unfolding insert_part
insert_parts out [] = out
insert_parts out (part ∷ parts) = insert_parts (insert_part out part) parts

-- `value.trim().strip_prefix("Digest").unwrap_or(value).trim()`
unfoldable pub parameters : Text → Text
parameters value = elim (strip_prefix (codes "Digest") (trim value)) [
  | none ↦ trim value
  | some rest ↦ trim rest
]

unfoldable pub parse_digest_authorization : Text → TextMap Text
unfolding parameters insert_parts
parse_digest_authorization value = insert_parts [] (split b',' (parameters value))
