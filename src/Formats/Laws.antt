-- ===== src/Formats/Laws.antt =====
-- core/media_engine/format_decision_engine.py: the list of format selectors.
use hyper_loader.Prelude.{List, AllDistinct, Text, [], one_of, true, ◌∷◌, ◌≡◌, codes, ℕ, ◌++◌}
use hyper_loader.Formats.Profile.{MediaProfile, extract_height}
use hyper_loader.Formats.Selectors.{
  codecs_of, audio_ext, add_selector, add_all, selector, last_resort,
}

-- the list has no selector twice, ends with the one that any file passes, and has before it for every
-- codec the selector that asks for 50 frames and the one that does not
abbrev pub IsFallback : (ℕ → Text) → MediaProfile → List Text → Type 0
IsFallback show profile sels =
    (front : List Text) × (sels ≡ front ++ last_resort ∷ [])
    × AllDistinct sels
    × ((c : Text)
        → one_of c (codecs_of profile) ≡ true
        → (let h = show (extract_height profile.resolution) in
            let audio = audio_ext profile.preferred_audio_codec in
            (one_of (selector h (codes "[fps>=50]") c [] audio) front ≡ true)
            × (one_of (selector h [] c [] audio) front ≡ true)))

-- the list after the last two selectors that name a height
module _ (a b : Text) (fast plain : List Text) where
  abbrev front : List Text
  front = add_selector b (add_selector a (add_all plain (add_all fast [])))
