-- ===== src/Gb28181/Mansrtsp.antt =====
-- `build_mansrtsp_seek_body` and `build_mansrtsp_speed_body` of src/gb28181/xml.rs. Floating-point numbers
-- are a parameter, with `max` and the formatting to a number of decimals.
use gmv_pjsip.Prelude.{ℕ, [], ◌∷◌, ◌++◌, Option, none, some}
use gmv_pjsip.Text.{Text, codes, print_uint}

pub record Floats : Type 1 where
  pub Float : Type 0
  pub zero : Float
  pub max : Float → Float → Float
  -- `{:.n}`
  pub fixed : ℕ → Float → Text

abbrev line_end : Text
line_end = b'\r' ∷ b'\n' ∷ []

module _ (floats : Floats) where
  -- `Range: npt={start}-`, with no time before zero
  range_line : ℕ → floats.Float → Text
  range_line decimals start =
      codes "Range: npt="
      ++ (floats.fixed decimals (floats.max start floats.zero) ++ (b'-' ∷ line_end))

  unfoldable pub build_mansrtsp_seek_body : floats.Float → ℕ → Text
  unfolding range_line print_uint
  build_mansrtsp_seek_body seek_second rtsp_cseq =
      codes "PLAY RTSP/1.0"
      ++ line_end
      ++ codes "CSeq: "
      ++ print_uint rtsp_cseq
      ++ line_end
      ++ range_line 0 seek_second
      ++ line_end

  unfoldable pub build_mansrtsp_speed_body : floats.Float → Option floats.Float → ℕ → Text
  unfolding range_line print_uint
  build_mansrtsp_speed_body scale range_start_second rtsp_cseq =
      codes "PLAY RTSP/1.0"
      ++ line_end
      ++ codes "CSeq: "
      ++ print_uint rtsp_cseq
      ++ line_end
      ++ codes "Scale: "
      ++ floats.fixed 3 scale
      ++ line_end
      ++ (elim range_start_second [ none ↦ [] | some start ↦ range_line 3 start ])
      ++ line_end
