-- ===== src/Subscriptions/Edits.antt =====
-- core/channel_subscriptions.py: the list of the subscriptions under its edits.
use hyper_loader.Prelude.{
  List, Bool, Bool-cases, Text, [], arith, false, if◌then◌else◌, inl, inr, keep_if, not, refl,
  strip, text_eq, text_eq_comm, text_eq_refl, true, ℕ, ◌++◌, ◌||◌, ◌∙◌, ◌∷◌, ◌≡◌,
}
use hyper_loader.Subscriptions.{
  ChannelSubscription, has_url, is_subscribed, new_subscription, add_subscription,
  remove_subscription,
}

-- no two subscriptions have the same address
abbrev pub OneEach : List ChannelSubscription → Type 0
OneEach [] = Unit
OneEach (sub ∷ subs) = (is_subscribed sub.url subs ≡ false) × OneEach subs

is_subscribed-append :
    (url : Text) (subs : List ChannelSubscription) (sub : ChannelSubscription)
    → is_subscribed url (subs ++ sub ∷ []) ≡ (is_subscribed url subs || has_url url sub)
unfolding is_subscribed
is_subscribed-append url [] sub = ground arith
is_subscribed-append url (s ∷ subs) sub = ground (arith, is_subscribed-append url subs sub)

append-OneEach :
    (subs : List ChannelSubscription) (sub : ChannelSubscription)
    → is_subscribed sub.url subs ≡ false
    → OneEach subs
    → OneEach (subs ++ sub ∷ [])
unfolding is_subscribed
append-OneEach [] sub fresh each = (refl, tt)
append-OneEach (s ∷ subs) sub fresh (alone, each) =
    let other : text_eq sub.url s.url ≡ false =
      let apart : text_eq s.url sub.url ≡ false = ground arith in
      text_eq_comm sub.url s.url ∙ apart in
    let e : is_subscribed s.url (subs ++ sub ∷ []) ≡ false =
      is_subscribed-append s.url subs sub ∙ (rw (alone, other) refl) in
    (e, append-OneEach subs sub (ground arith) each)

is_subscribed-keep_if :
    (f : ChannelSubscription → Bool) (url : Text) (subs : List ChannelSubscription)
    → is_subscribed url subs ≡ false
    → is_subscribed url (keep_if f subs) ≡ false
unfolding is_subscribed
is_subscribed-keep_if f url [] h = h
is_subscribed-keep_if f url (sub ∷ subs) h = elim (Bool-cases (f sub)) [
  | inl kept ↦ rw kept (ground (arith, is_subscribed-keep_if f url subs))
  | inr dropped ↦ rw dropped (is_subscribed-keep_if f url subs (ground arith))
]

keep_if-OneEach :
    (f : ChannelSubscription → Bool) (subs : List ChannelSubscription)
    → OneEach subs
    → OneEach (keep_if f subs)
keep_if-OneEach f [] each = tt
keep_if-OneEach f (sub ∷ subs) (alone, each) = elim (Bool-cases (f sub)) [
  | inl kept ↦ rw kept (is_subscribed-keep_if f sub.url subs alone, keep_if-OneEach f subs each)
  | inr dropped ↦ rw dropped (keep_if-OneEach f subs each)
]

removed :
    (url : Text) (subs : List ChannelSubscription)
    → is_subscribed url (keep_if (λ sub. not (has_url url sub)) subs) ≡ false
unfolding is_subscribed
removed url [] = refl
removed url (sub ∷ subs) = elim (Bool-cases (has_url url sub)) [
  | inl same ↦ rw same (removed url subs)
  | inr other ↦ rw (other, other) (removed url subs)
]

-- an edit of the list
pub data Edit : Type 0 where
  add : Text → Text → Text → Text → Text → ℕ → ℕ → Edit
  remove : Text → Edit

abbrev pub apply_edit : Edit → List ChannelSubscription → List ChannelSubscription
apply_edit (add url name out_dir fmt quality hours most) subs =
    add_subscription url name out_dir fmt quality hours most subs
apply_edit (remove url) subs = remove_subscription url subs

-- the address that the edit is about is then listed, or no longer
abbrev pub Applied : Edit → List ChannelSubscription → Type 0
Applied (add url name out_dir fmt quality hours most) subs = is_subscribed (strip url) subs ≡ true
Applied (remove url) subs = is_subscribed url subs ≡ false

if_new-OneEach :
    (subs : List ChannelSubscription) (sub : ChannelSubscription)
    → OneEach subs
    → OneEach (if is_subscribed sub.url subs then subs else subs ++ sub ∷ [])
      × (is_subscribed sub.url (if is_subscribed sub.url subs then subs else subs ++ sub ∷ [])
          ≡ true)
unfolding is_subscribed
if_new-OneEach subs sub each = elim (Bool-cases (is_subscribed sub.url subs)) [
  | inl listed ↦ rw listed (each, listed)
  | inr fresh ↦
      let e = is_subscribed-append sub.url subs sub ∙ rw (fresh, text_eq_refl sub.url) refl in
      rw fresh (append-OneEach subs sub fresh each, e)
]

-- An edit of subscriptions with distinct addresses keeps them distinct; the address that it adds is
-- then listed, and the one that it removes is not.
pub apply_edit-OneEach :
    (edit : Edit) (subs : List ChannelSubscription)
    → OneEach subs
    → OneEach (apply_edit edit subs) × Applied edit (apply_edit edit subs)
unfolding add_subscription remove_subscription new_subscription
apply_edit-OneEach (add url name out_dir fmt quality hours most) subs each =
    if_new-OneEach subs (new_subscription url name out_dir fmt quality hours most) each
apply_edit-OneEach (remove url) subs each =
    (keep_if-OneEach (λ sub. not (has_url url sub)) subs each, removed url subs)
