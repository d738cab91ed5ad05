-- ===== src/Formats.antt =====
-- core/media_engine/media_profile.py and core/media_engine/format_decision_engine.py: the profile of a
-- task, and the format selectors that are asked of yt-dlp for it. `str` of a number is a parameter; digits
-- and letters are the ASCII ones.
pub mod Profile
pub mod Selectors
pub mod Laws
mod Tests
use hyper_loader.Prelude.{List, Text, [], codes, if◌then◌else◌, text_eq, ℕ, ◌++◌, ◌∷◌}
use hyper_loader.Formats.Profile.{MediaProfile, extract_height}
use hyper_loader.Formats.Selectors.{
  codecs_of, audio_ext, is_hdr, add_selector, add_all, round_of, last_selectors, join_slash,
}

-- `_build_audio_selector`
unfoldable pub build_audio_selector : MediaProfile → Text
unfolding text_eq
build_audio_selector profile =
    let codec = profile.preferred_audio_codec in
    let first =
      if text_eq codec (codes "mp4a")
      then codes "bestaudio[acodec^=mp4a]" ∷ []
      else if text_eq codec (codes "opus")
      then codes "bestaudio[acodec^=opus]" ∷ []
      else if text_eq codec (codes "vorbis")
      then codes "bestaudio[acodec^=vorbis]" ∷ []
      else if text_eq codec (codes "mp3")
      then codes "bestaudio[ext=mp3]" ∷ []
      else [] in
    join_slash (first ++ codes "bestaudio/best" ∷ [])

module _ (show : ℕ → Text) where
  -- the list `selectors` of `_build_video_selector`
  unfoldable pub video_selectors : MediaProfile → List Text
  unfolding extract_height codecs_of audio_ext is_hdr add_selector text_eq
  video_selectors profile =
      let h = show (extract_height profile.resolution) in
      let codecs = codecs_of profile in
      let dynamic = is_hdr profile.dynamic_range in
      let audio = audio_ext profile.preferred_audio_codec in
      let fast = round_of h profile.dynamic_range dynamic audio (codes "[fps>=50]") codecs in
      let plain = round_of h profile.dynamic_range dynamic audio [] codecs in
      add_all (last_selectors h) (add_all plain (add_all fast []))

  unfoldable pub build_video_selector : MediaProfile → Text
  unfolding video_selectors
  build_video_selector profile = join_slash (video_selectors profile)

  unfoldable pub build_format_selector : MediaProfile → Text
  unfolding build_audio_selector build_video_selector text_eq
  build_format_selector profile =
      if text_eq profile.mode (codes "audio")
      then build_audio_selector profile
      else build_video_selector profile

unfoldable pub build_format_sort_spec : MediaProfile → Text
unfolding text_eq
build_format_sort_spec profile =
    if text_eq profile.mode (codes "audio")
    then codes "-abr,-asr"
    else codes "-hdr,-res,-fps,-size,-br"
