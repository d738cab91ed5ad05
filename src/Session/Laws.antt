-- ===== src/Session/Laws.antt =====
-- core/session_service.py and core/window_controllers/settings_controller.py: what is stored after
-- sequences of writes of the payloads that `build_session_payload` makes.
use hyper_loader.Prelude.{Error, Option, Text, none, some, ℕ, ◌≡◌, List, [], ◌∷◌, ◌≢◌, ◌⊎◌}
use hyper_loader.Session.Write.{Saver, save_queue, build_session_payload, write_session_payload}

-- a write: the exceptions of its saves, the token, the items, and the settings
pub record WriteCall (Items Settings : Type 0) : Type 0 where
  pub fails_items : Option Error
  pub fails_settings : Option Error
  pub revision : Option ℕ
  pub items : Items
  pub settings : Settings

-- nothing is noted yet
abbrev pub fresh_saver : {Items Settings : Type 0} → Items → Settings → Saver Items Settings
fresh_saver items settings = record {
  last_saved_queue_signature = none;
  last_saved_queue_revision = none;
  last_saved_settings_signature = none;
  stored_items = items;
  stored_settings = settings;
}

-- What is relied on of the digest of a JSON text: it is not empty, and differs for different values.
abbrev pub IsDigest : {A : Type 0} → (A → Option Text) → Type 0
IsDigest {A} digest =
    ((a : A) → digest a ≢ some [])
    × ((a b : A) (t : Text) → digest a ≡ some t → digest b ≡ some t → a ≡ b)

-- a noted signature is that of what is stored, unless it is the one of an exception
abbrev pub NotedOf : {A : Type 0} → (A → Option Text) → A → Option Text → Type 0
NotedOf digest stored noted = (t : Text) → noted ≡ some t → (t ≡ []) ⊎ (digest stored ≡ some t)

-- the items after a write of a payload made with a token, or without
abbrev pub items_after : {Items : Type 0} → Option ℕ → Items → Items → Items
items_after none items before = items
items_after (some revision) items before = before

module _ {Items Settings : Type 0} (digest_items : Items → Option Text)
    (digest_settings : Settings → Option Text) where
  -- what is noted as saved is stored
  abbrev pub IsHonest : Saver Items Settings → Type 0
  IsHonest s =
      NotedOf digest_items s.stored_items s.last_saved_queue_signature
      × NotedOf digest_settings s.stored_settings s.last_saved_settings_signature

  module _ (revision : Option ℕ) (items : Items) (settings : Settings) where
    abbrev queue_saved : Option Error → Saver Items Settings → Option Error × Saver Items Settings
    queue_saved fails s =
        let payload = build_session_payload revision items settings in
        save_queue digest_items digest_settings fails payload.queue_items payload.queue_revision s

  unfoldable pub run_writes :
      List (WriteCall Items Settings) → Saver Items Settings → Saver Items Settings
  unfolding write_session_payload
  run_writes [] s = s
  run_writes (w ∷ ws) s =
      run_writes ws
        (write_session_payload digest_items digest_settings w.fails_items w.fails_settings
          (build_session_payload w.revision w.items w.settings) s).1
