-- ===== src/Message/Header.antt =====
-- The parameters that src/message.rs finds in a header value.
use gmv_pjsip.Prelude.{
  ◌≡◌, refl, ap, ◌∙◌, false, List, [], ◌∷◌, ◌++◌, Option, none, some, contains, append-nil,
  if◌then◌else◌,
}
use gmv_pjsip.Text.Parts.{split_once-append, split-plain, split-part}
use gmv_pjsip.Text.{Text, trim, trim_quotes, split, eq_ignore_ascii_case}
use gmv_pjsip.Message.{name_and_value, param_in, extract_param}

pub record Param : Type 0 where
  pub name : Text
  pub value : Text

-- `name=value`
abbrev pub written : Param → Text
written p = p.name ++ (b'=' ∷ p.value)

-- `;name=value` for each parameter
abbrev pub written_all : List Param → Text
written_all [] = []
written_all (p ∷ ps) = b';' ∷ (written p ++ written_all ps)

-- The first parameter with the key, whatever the case of its letters.
abbrev pub lookup : Text → List Param → Option Text
lookup key [] = none
lookup key (p ∷ ps) = if eq_ignore_ascii_case p.name key then some p.value else lookup key ps

-- Nothing in it separates parts, and there is nothing to trim.
pub record IsPlainParam (p : Param) : Type 0 where
  pub one_part : contains b';' (written p) ≡ false
  pub no_equals : contains b'=' p.name ≡ false
  pub trimmed : trim (written p) ≡ written p
  pub trimmed_name : trim p.name ≡ p.name
  pub trimmed_value : trim_quotes (trim p.value) ≡ p.value

abbrev pub ArePlain : List Param → Type 0
ArePlain [] = Unit {0}
ArePlain (p ∷ ps) = IsPlainParam p × ArePlain ps

abbrev parts_of : List Param → List Text
parts_of [] = []
parts_of (p ∷ ps) = written p ∷ parts_of ps

split-written_all :
    (s : Text) (ps : List Param)
    → contains b';' s ≡ false
    → ArePlain ps
    → split b';' (s ++ written_all ps) ≡ s ∷ parts_of ps
split-written_all s [] h a = rw (append-nil s) (split-plain b';' s h)
split-written_all s (p ∷ ps) h a =
    split-part b';' s (written p ++ written_all ps) h
    ∙ ap (◌∷◌ s) (split-written_all (written p) ps a.0.one_part a.1)

name_and_value-written :
    (p : Param) → IsPlainParam p → name_and_value (written p) ≡ (p.name, p.value)
unfolding name_and_value
name_and_value-written p a =
    rw (a.trimmed, split_once-append b'=' p.name p.value a.no_equals, name_and_value)
      (rw (a.trimmed_name, a.trimmed_value) refl)

param_in-parts_of :
    (ps : List Param) (key : Text) → ArePlain ps → param_in (parts_of ps) key ≡ lookup key ps
unfolding param_in
param_in-parts_of [] key a = refl
param_in-parts_of (p ∷ ps) key a =
    rw (name_and_value-written p a.0) (rw (param_in-parts_of ps key a.1) refl)

-- In a header value that is followed by parameters, the one with a given key is found, and none where
-- there is none; the value itself must not contain a semicolon, and the parameters are plain.
pub extract_param-written_all :
    (s : Text) (ps : List Param) (key : Text)
    → contains b';' s ≡ false
    → ArePlain ps
    → extract_param (s ++ written_all ps) key ≡ lookup key ps
unfolding extract_param
extract_param-written_all s ps key h a =
    rw (split-written_all s ps h a) (param_in-parts_of ps key a)
