-- ===== src/Formats/Selectors.antt =====
-- core/media_engine/format_decision_engine.py: the codecs that are tried and the selectors of a round.
use hyper_loader.Prelude.{
  List, Bool, Text, [], codes, if◌then◌else◌, keep_if, one_of, text_eq, ◌++◌, ◌∷◌,
}
use hyper_loader.Formats.Profile.{MediaProfile}

abbrev hardware_codecs : List Text
hardware_codecs = codes "avc1" ∷ codes "h264" ∷ []

abbrev all_codecs : Text → List Text
all_codecs codec =
    if text_eq codec (codes "av01")
    then codes "av01" ∷ codes "hev1" ∷ codes "vp09.02" ∷ codes "vp09" ∷ codes "avc1" ∷ []
    else if text_eq codec (codes "vp9")
    then codes "vp09.02" ∷ codes "vp09" ∷ codes "av01" ∷ codes "hev1" ∷ codes "avc1" ∷ []
    else if text_eq codec (codes "hev1")
    then codes "hev1"
      ∷ codes "hvc1"
      ∷ codes "hevc"
      ∷ codes "h265"
      ∷ codes "av01"
      ∷ codes "vp09.02"
      ∷ codes "vp09"
      ∷ codes "avc1"
      ∷ []
    else codes "avc1" ∷ codes "h264" ∷ codes "vp09" ∷ codes "hev1" ∷ codes "av01" ∷ []

unfoldable pub codecs_of : MediaProfile → List Text
unfolding text_eq one_of
codecs_of profile =
    let codecs = all_codecs profile.preferred_video_codec in
    if profile.force_hardware_decode_safe
    then keep_if (λ c. one_of c hardware_codecs) codecs
    else codecs

unfoldable pub audio_ext : Text → Text
unfolding text_eq
audio_ext codec =
    if text_eq codec (codes "mp4a")
    then codes "[acodec^=mp4a]"
    else if text_eq codec (codes "opus")
    then codes "[acodec^=opus]"
    else if text_eq codec (codes "vorbis")
    then codes "[acodec^=vorbis]"
    else []

unfoldable pub is_hdr : Text → Bool
unfolding one_of
is_hdr dynamic_range = one_of dynamic_range (codes "HDR" ∷ codes "DV" ∷ [])

-- `add_selector`, where the set `seen` has the selectors of the list
unfoldable pub add_selector : Text → List Text → List Text
unfolding one_of
add_selector sel selectors = if one_of sel selectors then selectors else selectors ++ sel ∷ []

abbrev pub add_all : List Text → List Text → List Text
add_all [] selectors = selectors
add_all (sel ∷ sels) selectors = add_all sels (add_selector sel selectors)

-- one selector, with what it says of the rate and of the dynamic range
abbrev pub selector : Text → Text → Text → Text → Text → Text
selector h rate codec range audio =
    codes "bestvideo*[height<="
    ++ h
    ++ codes "][vcodec!=none]"
    ++ rate
    ++ codes "[vcodec^="
    ++ codec
    ++ codes "]"
    ++ range
    ++ codes "+bestaudio"
    ++ audio

abbrev pub range_of : Text → Text
range_of dynamic_range =
    codes "[dynamic_range="
    ++ (if text_eq dynamic_range (codes "DV") then codes "DV" else codes "HDR")
    ++ codes "]"

-- what a loop over the codecs adds: two selectors for each or one
abbrev pub added_by : Bool → (Text → Text) → (Text → Text) → List Text → List Text
added_by both ranged plain [] = []
added_by both ranged plain (c ∷ cs) =
    let rest = added_by both ranged plain cs in
    if both then ranged c ∷ plain c ∷ rest else plain c ∷ rest

-- one of the two loops
abbrev pub round_of : Text → Text → Bool → Text → Text → List Text → List Text
round_of h dynamic_range dynamic audio rate =
    added_by dynamic (λ c. selector h rate c (range_of dynamic_range) audio)
      (λ c. selector h rate c [] audio)

abbrev pub last_resort : Text
last_resort = codes "best"

abbrev pub last_selectors : Text → List Text
last_selectors h =
    (codes "bestvideo*[height<="
      ++ h
      ++ codes "][vcodec!=none]+bestaudio/best[height<="
      ++ h
      ++ codes "]")
    ∷ (codes "bestvideo*[vcodec!=none]+bestaudio/best[height<=" ++ h ++ codes "]")
    ∷ last_resort
    ∷ []

-- `"/".join`
abbrev pub join_slash : List Text → Text
join_slash [] = []
join_slash (s ∷ []) = s
join_slash (s ∷ t ∷ ts) = s ++ b'/' ∷ join_slash (t ∷ ts)
