-- ===== src/Organizer/Tests.antt =====
-- core/download_organizer.py: the cases of the module's laws, and runs.
use hyper_loader.Prelude.{
  Bool, Text, [], codes, if◌then◌else◌, none, refl, some, suc, true, zero, ℕ, ◌∷◌, ◌≡◌, text_eq,
}
use hyper_loader.Organizer.{
  file, FilePath, FileSystem, Outcome, failed, organized, same_path, Move, moved, raised_leaving,
  organize_download_output,
}
use hyper_loader.Organizer.Names.{normalize_auto_categorize_mode, target_parts}
use hyper_loader.Organizer.Laws.{
  organize_download_output-Kept, organize_download_output-PutBack,
  organize_download_output-Organized, Organized, PutBack,
}
use hyper_loader.Organizer.Laws.{
  organize_download_output-Kept, organize_download_output-PutBack,
  organize_download_output-Organized, Organized, PutBack,
}
use hyper_loader.Organizer.Names.{normalize_auto_categorize_mode, target_parts}

abbrev path : Text → Text → FilePath
path dir name = record { dir = dir; name = name }

abbrev clip : FilePath
clip = path (codes "d") (codes "a.mp4")

-- a video, its subtitle, and another video of that name in the folder
abbrev files : FileSystem
files p =
    if same_path p clip
    then some (file 1)
    else if same_path p (path (codes "d") (codes "a.srt"))
    then some (file 2)
    else if same_path p (path (codes "d/Videos") (codes "a.mp4"))
    then some (file 3)
    else none

-- the folder of the strategy is made
abbrev made : FilePath → Bool
made p = same_path p (path (codes "d") (codes "Videos"))

abbrev call : (ℕ → Move) → FileSystem × Outcome
call does =
    organize_download_output made true does (λ k. moved) (codes "a.srt" ∷ codes "b.srt" ∷ [])
      (codes " Mode ") (codes "video") clip files

abbrev always : ℕ → Move
always k = moved

-- the second move copies its file and raises
abbrev second : ℕ → Move
second zero = moved
second (suc k) = raised_leaving (file 2)

abbrev moved_clip : FilePath
moved_clip = path (codes "d/Videos") (codes "a (1).mp4")

abbrev moved_text : FilePath
moved_text = path (codes "d/Videos") (codes "a (1).srt")

both_moved : (call always).1 ≡ organized moved_clip (moved_clip ∷ moved_text ∷ [])
unfolding organize_download_output normalize_auto_categorize_mode
both_moved = refl

second_failed : (call second).1 ≡ failed
unfolding organize_download_output normalize_auto_categorize_mode
second_failed = refl

copy_left : (call second).0 moved_text ≡ some (file 2)
unfolding organize_download_output normalize_auto_categorize_mode
copy_left = refl

organize_download_output-Kept_example : (q : FilePath) × ((call second).0 q ≡ some (file 2))
unfolding text_eq
organize_download_output-Kept_example =
    organize_download_output-Kept made second always (codes "a.srt" ∷ codes "b.srt" ∷ [])
      (codes " Mode ") (codes "video") clip files true (path (codes "d") (codes "a.srt")) (file 2)
      refl

organize_download_output-PutBack_example : PutBack made (codes "d/Videos") files (call second).0
unfolding target_parts normalize_auto_categorize_mode
organize_download_output-PutBack_example =
    organize_download_output-PutBack made second always (codes "a.srt" ∷ codes "b.srt" ∷ [])
      (codes " Mode ") (codes "video") clip files true (λ k. refl) second_failed

organize_download_output-Organized_example :
    Organized made clip (codes "d/Videos") moved_clip files (call always).0
unfolding target_parts normalize_auto_categorize_mode
organize_download_output-Organized_example =
    organize_download_output-Organized made always always (codes "a.srt" ∷ codes "b.srt" ∷ [])
      (codes " Mode ") (codes "video") clip files true moved_clip (moved_clip ∷ moved_text ∷ [])
      both_moved
