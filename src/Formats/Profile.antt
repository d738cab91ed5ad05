-- ===== src/Formats/Profile.antt =====
-- core/media_engine/media_profile.py: the profile of a task, and the height that its resolution names.
use hyper_loader.Prelude.{
  List, Bool, Option, Text, [], codes, false, if◌then◌else◌, leb, lower, none, one_of, some,
  starts_with, suc, text_eq, true, zero, ℕ, ◌&&◌, ◌*◌, ◌+◌, ◌-◌, ◌∷◌,
}

pub record MediaProfile : Type 0 where
  pub resolution : Text
  pub fps : ℕ
  pub dynamic_range : Text
  pub preferred_video_codec : Text
  pub preferred_audio_codec : Text
  pub target_container : Text
  pub mode : Text
  pub max_bitrate_kbps : Option ℕ
  pub force_hardware_decode_safe : Bool
  pub allow_recode : Bool

abbrev large_qualities : List Text
large_qualities = codes "2160p" ∷ codes "4k" ∷ codes "8k" ∷ codes "4320p" ∷ []

-- the codec of the pictures, by the quality and then by the container
unfoldable pub video_codec_of : Text → Text → Text
unfolding text_eq one_of
video_codec_of quality fmt =
    if text_eq fmt (codes "webm")
    then codes "vp9"
    else if text_eq fmt (codes "mkv")
    then codes "av01"
    else if one_of quality large_qualities
    then codes "vp9"
    else codes "avc1"

-- the codec of the sound, by the container and, for sound alone, by the format
unfoldable pub audio_codec_of : Text → Text → Text
unfolding text_eq one_of
audio_codec_of mode fmt =
    if text_eq mode (codes "audio")
    then if text_eq fmt (codes "mp3")
      then codes "mp3"
      else if one_of fmt (codes "m4a" ∷ codes "mp4" ∷ [])
      then codes "mp4a"
      else if one_of fmt (codes "ogg" ∷ codes "flac" ∷ codes "wav" ∷ [])
      then fmt
      else codes "opus"
    else if one_of fmt (codes "webm" ∷ codes "mkv" ∷ [])
    then codes "opus"
    else codes "mp4a"

abbrev text_or : Option Text → Text → Text
text_or none d = d
text_or (some s) d = s

-- `MediaProfile.from_task`, of the task's quality, mode and format
unfoldable pub from_task : Option Text → Option Text → Option Text → MediaProfile
unfolding video_codec_of audio_codec_of lower
from_task quality mode fmt =
    let q = lower (text_or quality (codes "1080p")) in
    let m = lower (text_or mode (codes "video")) in
    let f = lower (text_or fmt (codes "mp4")) in
    record {
      resolution = q;
      fps = 60;
      dynamic_range = codes "SDR";
      preferred_video_codec = video_codec_of q f;
      preferred_audio_codec = audio_codec_of m f;
      target_container = f;
      mode = m;
      max_bitrate_kbps = none;
      force_hardware_decode_safe = false;
      allow_recode = true;
    }

-- `s.replace("kbps", "")`, with the letters that are skipped
unfoldable pub without_kbps : ℕ → Text → Text
unfolding starts_with
without_kbps k [] = []
without_kbps (suc k) (c ∷ s) = without_kbps k s
without_kbps zero (c ∷ s) =
    let found = starts_with (c ∷ s) (codes "kbps") in
    let rest = without_kbps (if found then 3 else 0) s in if found then rest else c ∷ rest

abbrev is_digit : ℕ → Bool
is_digit c = leb b'0' c && leb c b'9'

-- the number that a text goes on with
unfoldable pub go_on : ℕ → Text → ℕ
go_on n [] = n
go_on n (c ∷ s) = let rest = go_on (n * 10 + (c - b'0')) s in if is_digit c then rest else n

-- `re.search(r"(\d+)")`
unfoldable pub first_number : Text → Option ℕ
unfolding go_on
first_number [] = none
first_number (c ∷ s) =
    let rest = first_number s in if is_digit c then some (go_on (c - b'0') s) else rest

abbrev height_or : Option ℕ → ℕ
height_or none = 1080
height_or (some h) = h

-- `_extract_height`
unfoldable pub extract_height : Text → ℕ
unfolding without_kbps first_number lower one_of
extract_height resolution =
    let res = without_kbps 0 (lower resolution) in
    if one_of res (codes "2160p" ∷ codes "4k" ∷ [])
    then 2160
    else if one_of res (codes "4320p" ∷ codes "8k" ∷ [])
    then 4320
    else height_or (first_number res)
