-- ===== src/Transcode/Ladder.antt =====
-- The ladder of video rungs of a source (internal/transcode/probe.go and playlist_vod.go). A height
-- that is not positive acts as 0 in all tests of the source, and is 0 here.
pub mod Heights
use sudostream.Prelude.{
  not, zero, ◌&&◌, ltb, true, suc, none, ◌==◌, if◌then◌else◌, false, leb, [], first, some, map,
  sort_by, Bool, keep, ◌∷◌, Option, List, ℕ,
}
use sudostream.Text.{Bytes, codes}

pub record QualityRung : Type 0 where
  pub height : ℕ
  pub bitrate : Bytes
  pub max_rate : Bytes
  pub buf_size : Bytes

abbrev pub rung_of : ℕ → Bytes → Bytes → Bytes → QualityRung
rung_of height bitrate max_rate buf_size = record {
  height = height;
  bitrate = bitrate;
  max_rate = max_rate;
  buf_size = buf_size;
}

abbrev pub lowest_rung : QualityRung
lowest_rung = rung_of 240 (codes "400k") (codes "428k") (codes "600k")

abbrev pub all_rungs : List QualityRung
all_rungs =
    rung_of 2160 (codes "14000k") (codes "14980k") (codes "21000k")
    ∷ (rung_of 1440 (codes "8000k") (codes "8560k") (codes "12000k")
        ∷ (rung_of 1080 (codes "5000k") (codes "5350k") (codes "7500k")
            ∷ (rung_of 720 (codes "2800k") (codes "2996k") (codes "4200k")
                ∷ (rung_of 480 (codes "1400k") (codes "1498k") (codes "2100k")
                    ∷ (rung_of 360 (codes "800k") (codes "856k") (codes "1200k")
                        ∷ (lowest_rung ∷ []))))))

-- Where no rung of the table is low enough, the source gets one of its own height.
abbrev pub or_native : ℕ → List QualityRung → List QualityRung
or_native source_height (rung ∷ rungs) = rung ∷ rungs
or_native source_height [] =
    rung_of source_height (codes "1400k") (codes "1498k") (codes "2100k") ∷ []

abbrev pub no_upscale : ℕ → List QualityRung
no_upscale source_height = keep (λ rung. leb rung.height source_height) all_rungs

-- QualityRungs
unfoldable pub quality_rungs : ℕ → List QualityRung
quality_rungs zero = lowest_rung ∷ []
quality_rungs (suc h) = or_native (suc h) (no_upscale (suc h))

-- FastStartRung
abbrev head_rung : List QualityRung → QualityRung
head_rung [] = lowest_rung
head_rung (rung ∷ rungs) = rung

unfoldable pub fast_start_rung : ℕ → QualityRung
fast_start_rung source_height = head_rung (quality_rungs source_height)

-- qualityRungIncluded
unfoldable pub quality_rung_included : List QualityRung → ℕ → Bool
quality_rung_included [] height = false
quality_rung_included (rung ∷ rungs) height =
    let rest = quality_rung_included rungs height in if rung.height == height then true else rest

-- sort.Reverse(sort.IntSlice)
abbrev pub highest_first : List ℕ → List ℕ
highest_first = sort_by (λ a b. leb b a)

-- LadderHeights
unfoldable pub ladder_heights : ℕ → List ℕ
ladder_heights source_height =
    let rungs = quality_rungs source_height in
    let heights = map (λ (rung : QualityRung). rung.height) rungs in
    highest_first (
      if ltb 0 source_height && not (quality_rung_included rungs source_height)
      then source_height ∷ heights
      else heights)

-- ladderRung
abbrev pub rung_or : QualityRung → Option QualityRung → QualityRung
rung_or fallback none = fallback
rung_or fallback (some rung) = rung

unfoldable pub ladder_rung : ℕ → ℕ → QualityRung
ladder_rung source_height height =
    rung_or (fast_start_rung source_height)
      (first (λ rung. rung.height == height) (quality_rungs source_height))
