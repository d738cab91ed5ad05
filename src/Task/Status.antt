-- ===== src/Task/Status.antt =====
-- core/task_types.py: the enumerations of statuses and post actions, and their normalisation.
use hyper_loader.Prelude.{
  Text, codes, text_eq, one_of, strip, lower, or_text, List, [], ◌∷◌, map, Bool, true, false,
  if◌then◌else◌, Option,
}

pub data TaskStatus : Type 0 where
  pending queued running downloading processing merging paused cancelled failed success completed
        error deleted :
      TaskStatus

-- `status.value`
unfoldable pub value : TaskStatus → Text
value pending = codes "pending"
value queued = codes "queued"
value running = codes "running"
value downloading = codes "downloading"
value processing = codes "processing"
value merging = codes "merging"
value paused = codes "paused"
value cancelled = codes "cancelled"
value failed = codes "failed"
value success = codes "success"
value completed = codes "completed"
value error = codes "error"
value deleted = codes "deleted"

abbrev pub task_statuses : List TaskStatus
task_statuses =
    pending ∷ queued ∷ running ∷ downloading ∷ processing ∷ merging ∷ paused ∷ cancelled ∷ failed
    ∷ success ∷ completed ∷ error ∷ deleted ∷ []

-- `_TASK_STATUS_VALUES`
unfoldable pub task_status_values : List Text
unfolding value
task_status_values = map value task_statuses

pub data PostActionType : Type 0 where
  none open_folder play_sound shutdown run_script transcribe : PostActionType

unfoldable pub action_value : PostActionType → Text
action_value none = codes "none"
action_value open_folder = codes "open_folder"
action_value play_sound = codes "play_sound"
action_value shutdown = codes "shutdown"
action_value run_script = codes "run_script"
action_value transcribe = codes "transcribe"

-- `_POST_ACTION_VALUES`
unfoldable pub post_action_values : List Text
unfolding action_value
post_action_values =
    map action_value (none ∷ open_folder ∷ play_sound ∷ shutdown ∷ run_script ∷ transcribe ∷ [])

unfoldable pub normalize_enum_value : Text → List Text → Text → Text
unfolding one_of strip lower
normalize_enum_value v valid default =
    let normalized = lower (strip v) in if one_of normalized valid then normalized else default

-- the parameter `default`: a member of the enumeration, or a text
pub data Default (E : Type 0) : Type 0 where
  member : E → Default E
  text : Text → Default E

unfoldable pub default_text : {E : Type 0} → (E → Text) → Text → Default E → Text
unfolding strip lower
default_text val fallback (member e) = val e
default_text val fallback (text t) = lower (strip (or_text t fallback))

unfoldable pub normalize_task_status : Text → Default TaskStatus → Text
unfolding normalize_enum_value default_text task_status_values
normalize_task_status v default =
    let first = default_text value (value pending) default in
    let fallback = normalize_enum_value first task_status_values (value pending) in
    normalize_enum_value v task_status_values fallback

-- the membership test, with `allow_unknown` and `allowed_values`
unfoldable pub pick_action : Text → Text → Bool → Option (List Text) → Text
unfolding one_of post_action_values
pick_action normalized fallback true Option.none = normalized
pick_action normalized fallback false Option.none =
    if one_of normalized post_action_values then normalized else fallback
pick_action normalized fallback unknown (Option.some values) =
    if one_of normalized values then normalized else fallback

unfoldable pub normalize_post_action :
    Text → Default PostActionType → Option (List Text) → Bool → Text
unfolding normalize_enum_value default_text pick_action text_eq
normalize_post_action v default allowed allow_unknown =
    let first = default_text action_value (action_value none) default in
    let fallback = normalize_enum_value first post_action_values (action_value none) in
    let normalized = lower (strip v) in
    if text_eq normalized []
    then fallback
    else pick_action normalized fallback allow_unknown allowed
