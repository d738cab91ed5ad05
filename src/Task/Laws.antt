-- ===== src/Task/Laws.antt =====
-- What normalisation and updates promise.
use hyper_loader.Prelude.{
  Text, one_of, strip, lower, ◌≡◌, refl, List, false, Option, text_eq, [], true, Bool-cases, inl,
  inr,
}
use hyper_loader.Task.Status.{
  TaskStatus, Default, value, task_status_values, normalize_enum_value, normalize_task_status,
  default_text, pending, PostActionType, post_action_values, action_value, normalize_post_action,
  pick_action,
}

normalize_enum_value-valid :
    (v : Text) (valid : List Text) (d : Text)
    → one_of d valid ≡ true
    → one_of (normalize_enum_value v valid d) valid ≡ true
unfolding normalize_enum_value
normalize_enum_value-valid v valid d h = elim (Bool-cases (one_of (lower (strip v)) valid)) [
  | inl e ↦ rw e e
  | inr e ↦ rw e h
]

-- Whatever the value and the default are, the normalised status is one of the enumeration's values.
pub normalize_task_status-valid :
    (v : Text) (d : Default TaskStatus)
    → one_of (normalize_task_status v d) task_status_values ≡ true
unfolding normalize_task_status
normalize_task_status-valid v d = normalize_enum_value-valid v task_status_values _ (
    normalize_enum_value-valid (default_text value (value pending) d) task_status_values _
      (unfold one_of task_status_values value in refl))

-- The value of a status is kept as it is, whatever the default.
pub normalize_task_status-value :
    (s : TaskStatus) (d : Default TaskStatus) → normalize_task_status (value s) d ≡ value s
unfolding normalize_task_status
normalize_task_status-value pending d = refl
normalize_task_status-value _ d = refl

-- With no other values allowed, the normalised post action is one of the enumeration's values, whatever
-- the value and the default are.
pub normalize_post_action-valid :
    (v : Text) (d : Default PostActionType)
    → one_of (normalize_post_action v d Option.none false) post_action_values ≡ true
unfolding normalize_post_action pick_action
normalize_post_action-valid v d =
    let first = default_text action_value (action_value PostActionType.none) d in
    let fallback =
      normalize_enum_value first post_action_values (action_value PostActionType.none) in
    let valid : one_of fallback post_action_values ≡ true =
      normalize_enum_value-valid first post_action_values _
        (unfold one_of post_action_values action_value in refl) in
    elim (Bool-cases (text_eq (lower (strip v)) [])) [
      | inl e ↦ rw e valid
      | inr e ↦ elim (Bool-cases (one_of (lower (strip v)) post_action_values)) [
        | inl k ↦ rw (e, k) k
        | inr k ↦ rw (e, k) valid
      ]
    ]
