-- ===== src/Events.antt =====
-- core/event_bus.py: `EventBus`, whose subscribers are called for the events of a type. Types and
-- callbacks are numbers; the dictionary is a function, with `none` for a missing key.
pub mod Laws
mod Tests
use hyper_loader.Prelude.{
  Bool, List, Option, Result, [], false, if◌then◌else◌, keep_if, key_error, length, map, none, not,
  ok, raise, some, ℕ, ◌&&◌, ◌++◌, ◌==◌, ◌||◌, ◌∷◌,
}

-- `(callback, main_thread_only)`
abbrev pub Listener : Type 0
Listener = ℕ × Bool

abbrev pub Bus : Type 0
Bus = ℕ → Option (List Listener)

abbrev pub assign_key : ℕ → Option (List Listener) → Bus → Bus
assign_key k v bus j = if j == k then v else bus j

-- `get(event_type, [])`
abbrev pub or_empty : Option (List Listener) → List Listener
or_empty none = []
or_empty (some ls) = ls

abbrev pub is_callback : ℕ → Listener → Bool
is_callback cb l = l.0 == cb

abbrev pub has_callback : ℕ → List Listener → Bool
has_callback cb [] = false
has_callback cb (l ∷ ls) = is_callback cb l || has_callback cb ls

unfoldable pub subscribe : ℕ → ℕ → Bool → Bus → Bus
subscribe event_type cb main_only bus =
    let ls = or_empty (bus event_type) in
    assign_key event_type (some (if has_callback cb ls then ls else ls ++ (cb, main_only) ∷ [])) bus

-- the listeners that are left, or a `KeyError`
abbrev pub popped : ℕ → Bus → Option (List Listener) → Result Bus
popped event_type bus none = raise key_error
popped event_type bus (some []) = ok (assign_key event_type none bus)
popped event_type bus (some (l ∷ ls)) = ok bus

-- the bus with the other listeners kept, which is written if any was removed
unfoldable pub keep_others : ℕ → ℕ → Bus → List Listener → Bus
keep_others event_type cb bus ls =
    let left = keep_if (λ l. not (is_callback cb l)) ls in
    if length left == length ls then bus else assign_key event_type (some left) bus

unfoldable pub unsubscribe : ℕ → ℕ → Bus → Result Bus
unfolding keep_others
unsubscribe event_type cb bus =
    let after = keep_others event_type cb bus (or_empty (bus event_type)) in
    popped event_type after (after event_type)

-- a call, on this thread or passed to the main one
pub data Call : Type 0 where
  direct bridged : ℕ → Call

abbrev pub call_of : Bool → Listener → Call
call_of on_main (cb, main_only) = if main_only && not on_main then bridged cb else direct cb

-- `_deliver`: every listener is called, whatever those before it raise
unfoldable pub deliver : Bool → ℕ → Bus → List Call
deliver on_main event_type bus = map (call_of on_main) (or_empty (bus event_type))
