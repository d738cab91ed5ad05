-- ===== src/Subscriptions/Ids.antt =====
-- core/channel_subscriptions.py: the ids that are new among those that were fetched.
use hyper_loader.Prelude.{
  List, Text, [], if◌then◌else◌, is_empty, keep_if, ltb, map, not, one_of, strip, take, text_eq, ℕ,
  ◌&&◌, ◌∷◌,
}

-- the texts that are not empty once stripped
unfoldable pub stripped_ids : List Text → List Text
unfolding strip
stripped_ids ids = keep_if (λ v. not (is_empty v)) (map strip ids)

-- `ordered[: ordered.index(boundary)]`
unfoldable pub take_before : Text → List Text → List Text
unfolding text_eq
take_before boundary [] = []
take_before boundary (v ∷ vs) =
    let rest = take_before boundary vs in if text_eq v boundary then [] else v ∷ rest

-- the loop over the candidates
unfoldable pub unique_from : List Text → List Text → List Text
unfolding one_of
unique_from seen [] = []
unique_from seen (v ∷ vs) =
    let rest = unique_from (if one_of v seen then seen else v ∷ seen) vs in
    if one_of v seen then rest else v ∷ rest

unfoldable pub candidates_of : List Text → List Text → Text → List Text
unfolding take_before one_of stripped_ids
candidates_of ordered known_ids boundary =
    if not (is_empty boundary) && one_of boundary ordered
    then take_before boundary ordered
    else keep_if (λ v. not (one_of v (stripped_ids known_ids))) ordered

-- `_collect_new_video_ids`
unfoldable pub collect_new_video_ids : List Text → List Text → Text → ℕ → List Text
unfolding stripped_ids candidates_of unique_from strip
collect_new_video_ids fetched_ids known_ids last_seen_video_id max_downloads =
    let ordered = stripped_ids fetched_ids in
    let unique = unique_from [] (candidates_of ordered known_ids (strip last_seen_video_id)) in
    if is_empty ordered
    then []
    else if ltb 0 max_downloads
    then take max_downloads unique
    else unique
