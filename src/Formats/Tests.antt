-- ===== src/Formats/Tests.antt =====
-- core/media_engine: the case of the law, and runs.
use hyper_loader.Prelude.{Text, [], codes, length, map, none, refl, some, true, ℕ, ◌∷◌, ◌≡◌}
use hyper_loader.Formats.{build_audio_selector, video_selectors}
use hyper_loader.Formats.Profile.{MediaProfile, from_task, extract_height}

abbrev show : ℕ → Text
show n = codes "H"

-- a profile of an HDR video for decoding in hardware
abbrev hdr : MediaProfile
hdr = record (from_task (some (codes "4K")) none (some (codes "webm"))) {
  dynamic_range = codes "HDR";
  force_hardware_decode_safe = true;
}

hdr_selectors : length (video_selectors show hdr) ≡ 7
unfolding video_selectors from_task
hdr_selectors = refl

heights :
    map extract_height (codes "1440p60" ∷ codes "8K" ∷ codes "192kbps" ∷ codes "best" ∷ [])
    ≡ 1440 ∷ 4320 ∷ 192 ∷ 1080 ∷ []
unfolding extract_height
heights = refl

-- a profile for ogg never names the codec that the selectors know
ogg_selector :
    build_audio_selector (from_task none (some (codes "audio")) (some (codes "ogg")))
    ≡ codes "bestaudio/best"
unfolding build_audio_selector from_task
ogg_selector = refl
