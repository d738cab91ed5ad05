-- ===== src/Session/Write.antt =====
-- core/session_service.py: `write_session_payload`, which skips what has been saved already.
use hyper_loader.Prelude.{
  Bool, Error, Option, Text, [], false, if◌then◌else◌, none, some, text_eq, value_error, ℕ, ◌==◌,
}

pub record Payload (Items Settings : Type 0) : Type 0 where
  pub queue_items : Option Items
  pub queue_revision : Option ℕ
  pub settings : Settings

-- what was saved last, and what the tables have
pub record Saver (Items Settings : Type 0) : Type 0 where
  pub last_saved_queue_signature : Option Text
  pub last_saved_queue_revision : Option ℕ
  pub last_saved_settings_signature : Option Text
  pub stored_items : Items
  pub stored_settings : Settings

abbrev pub is_last_revision : ℕ → Option ℕ → Bool
is_last_revision r none = false
is_last_revision r (some last) = r == last

abbrev pub is_last_signature : Text → Option Text → Bool
is_last_signature s none = false
is_last_signature s (some last) = text_eq s last

-- `SettingsController.build_session_payload`, from the token of the queue manager, which is missing where
-- it has none or cannot be read, the items and the settings
abbrev pub build_session_payload :
    {Items Settings : Type 0} → Option ℕ → Items → Settings → Payload Items Settings
build_session_payload none items settings = record {
  queue_items = some items;
  queue_revision = none;
  settings = settings;
}
build_session_payload (some revision) items settings = record {
  queue_items = none;
  queue_revision = some revision;
  settings = settings;
}

-- `_stable_payload_signature`, from the digest of the JSON text; `none` is an exception
abbrev pub stable_payload_signature : Option Text → Text
stable_payload_signature none = []
stable_payload_signature (some digest) = digest

module _ {Items Settings : Type 0} (digest_items : Items → Option Text)
    (digest_settings : Settings → Option Text) where
  abbrev pub sig_items : Items → Text
  sig_items items = stable_payload_signature (digest_items items)

  abbrev pub sig_settings : Settings → Text
  sig_settings settings = stable_payload_signature (digest_settings settings)

  -- the exception of a save, and the state after it
  abbrev pub Saved : Type 0
  Saved = Option Error × Saver Items Settings

  -- a save, whose exception leaves all as it was
  abbrev pub guarded : Option Error → Saver Items Settings → Saver Items Settings → Saved
  guarded none before after = (none, after)
  guarded (some e) before after = (some e, before)

  unfoldable pub save_queue : Option Error → Option Items → Option ℕ → Saver Items Settings → Saved
  unfolding text_eq
  save_queue fails none revision s = (none, s)
  save_queue fails (some items) (some revision) s =
      if is_last_revision revision s.last_saved_queue_revision
      then (none, s)
      else guarded fails s (record s {
        stored_items = items;
        last_saved_queue_revision = some revision;
        last_saved_queue_signature = none;
      })
  save_queue fails (some items) none s =
      if is_last_signature (sig_items items) s.last_saved_queue_signature
      then (none, s)
      else guarded fails s
          (record s { stored_items = items; last_saved_queue_signature = some (sig_items items) })

  unfoldable pub save_settings : Option Error → Settings → Saver Items Settings → Saved
  unfolding text_eq
  save_settings fails settings s =
      if is_last_signature (sig_settings settings) s.last_saved_settings_signature
      then (none, s)
      else guarded fails s (record s {
        stored_settings = settings;
        last_saved_settings_signature = some (sig_settings settings);
      })

  abbrev pub then_settings : Option Error → Settings → Saved → Saved
  then_settings fails settings (some e, s) = (some e, s)
  then_settings fails settings (none, s) = save_settings fails settings s

  -- what the handler lets through
  abbrev pub uncaught : Option Error → Option Error
  uncaught (some value_error) = none
  uncaught e = e

  -- `write_session_payload`, with the exceptions of the two saves
  unfoldable pub write_session_payload :
      Option Error → Option Error → Payload Items Settings → Saver Items Settings → Saved
  unfolding save_queue save_settings
  write_session_payload fails_items fails_settings payload s =
      let (e, after) =
        then_settings fails_settings payload.settings
          (save_queue fails_items payload.queue_items payload.queue_revision s) in
      (uncaught e, after)
