-- ===== src/Events/Tests.antt =====
-- Two callbacks of one type of event.
use hyper_loader.Prelude.{[], false, key_error, none, ok, raise, refl, true, ◌∷◌, ◌≡◌, ◌⊎◌}
use hyper_loader.Events.{Bus, bridged, subscribe, unsubscribe, deliver}
use hyper_loader.Events.Laws.{Unsubscribed, unsubscribe_lem}

abbrev quiet : Bus
quiet j = none

abbrev pair_bus : Bus
pair_bus = subscribe 1 8 true (subscribe 1 7 false (subscribe 1 7 true quiet))

delivered : deliver false 1 pair_bus ≡ bridged 7 ∷ bridged 8 ∷ []
unfolding deliver subscribe
delivered = refl

unknown_type : unsubscribe 2 7 pair_bus ≡ raise key_error
unfolding unsubscribe subscribe
unknown_type = refl

unsubscribe_example :
    ((pair_bus 1 ≡ none) × (unsubscribe 1 7 pair_bus ≡ raise key_error))
    ⊎ ((result : Bus) × (unsubscribe 1 7 pair_bus ≡ ok result) × Unsubscribed 1 7 pair_bus result)
unsubscribe_example = unsubscribe_lem 1 7 pair_bus
