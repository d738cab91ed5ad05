-- ===== src/Proxy/Laws.antt =====
-- core/proxy_manager.py: which proxies the calls hand out, and when the kill switch engages.
use hyper_loader.Prelude.{
  List, Text, arith, false, inl, inr, length, not, one_of, true, ℕ, ◌≡◌, ◌⊎◌, Bool-cases, [], ap,
  refl, sym, ◌∙◌, ◌∷◌, Bool, Option, Option-cases, if◌then◌else◌, ltb, lt→ltb, none, some, text_eq,
}
use hyper_loader.Proxy.{
  ProxyManager, sanitize_runtime_state, current, is_rested, available_rotation_candidates,
}
use hyper_loader.Proxy.Candidates.{is_empty-candidates, or_list-first}
use hyper_loader.Proxy.Picked.{
  IsValid, cur-IsClean, sanitize-ready, one_of-other, two_members, picked, picks, picked-ready,
}
use hyper_loader.Proxy.Pick.{pick_next_proxy}
use hyper_loader.Proxy.Calls.{
  leave_disabled, is_rotation_due, rotate_if_due, use_proxy, get_current_proxy, rotation_candidates,
  rotate_from, get_proxy, rotate,
}
use hyper_loader.Proxy.Steps.{
  sanitize-IsValid, sanitize-proxies, current-one_of, leave_disabled-interval, rotate_if_due-never,
  stays, due_turn, is_rotation_due-sanitize,
}

module _ (clock : ℕ → ℕ) (m : ProxyManager) (valid : IsValid m) (cur : Text)
    (at_cur : current m ≡ some cur) where
  abbrev clean_state : ProxyManager
  clean_state = sanitize_runtime_state m

  listed : one_of cur clean_state.proxies ≡ true
  unfolding sanitize_runtime_state
  listed = current-one_of m cur at_cur

  rotation_candidates_eq :
      (q : Text)
      → one_of q m.proxies ≡ true
      → text_eq q cur ≡ false
      → rotation_candidates clock cur clean_state
        ≡ available_rotation_candidates (cur ∷ []) (clock 0) clean_state
  unfolding rotation_candidates sanitize_runtime_state
  rotation_candidates_eq q there other =
      let several : ltb 1 (length m.proxies) ≡ true =
        lt→ltb 1 (length m.proxies)
          (two_members m.proxies cur q (current-one_of m cur at_cur) there other) in
      rw several (
        or_list-first (available_rotation_candidates (cur ∷ []) (clock 0) clean_state)
          (available_rotation_candidates [] (clock 1) clean_state)
          (is_empty-candidates (cur ∷ []) (clock 0) clean_state
            (cur-IsClean clean_state (sanitize-IsValid m valid) cur (clock 0) true 0 listed) q there
            (one_of-other cur q ∙ other)))

  handed_over :
      (r : ℕ) (randomize : Bool) {cs : List Text} {p : Text}
      → rotation_candidates clock cur clean_state ≡ cs
      → pick_next_proxy cs cur randomize r clean_state ≡ some p
      → (rotate_from clock r randomize m (some cur)).0 ≡ some p
  unfolding rotate_from
  handed_over r randomize same pick = rw (same, pick) refl

  -- A rotation hands out a listed proxy other than the current one that is ready, if there is one.
  pub rotate-ready :
      (r : ℕ) (randomize : Bool) (q : Text)
      → one_of q m.proxies ≡ true
      → text_eq q cur ≡ false
      → is_rested (clock 0) m q ≡ true
      → (p : Text) × ((rotate clock r randomize m).0 ≡ some p)
        × (one_of p m.proxies ≡ true)
        × (text_eq p cur ≡ false)
        × (is_rested (clock 0) m p ≡ true)
  unfolding rotate
  rotate-ready r randomize q there other ready =
      let s = clean_state in
      let valid_s = sanitize-IsValid m valid in
      let (p, pick) = picks s valid_s cur (clock 0) randomize r listed q there other in
      let (in_list, moves) = picked s valid_s cur (clock 0) randomize r listed p pick in
      let fresh =
        picked-ready s valid_s cur (clock 0) randomize r listed q there other p
          (sanitize-ready m (clock 0) q valid.clean there ∙ ready) pick in
      (
        p,
        ap (λ x. (rotate_from clock r randomize m x).0) at_cur
            ∙ handed_over r randomize (rotation_candidates_eq q there other) pick,
        in_list,
        moves,
        sym (sanitize-ready m (clock 0) p valid.clean in_list) ∙ fresh,
      )

  -- the proxy that a call uses is the one picked, where the current one is cooling down
  leave_disabled-cases :
      (r : ℕ)
      → (((leave_disabled clock r cur clean_state).0 ≡ cur)
          × ((is_rested (clock 0) clean_state cur ≡ true)
              ⊎ (pick_next_proxy
                    (available_rotation_candidates (cur ∷ []) (clock 1) clean_state)
                    cur
                    true
                    r
                    clean_state
                  ≡ none)))
        ⊎ (pick_next_proxy
              (available_rotation_candidates (cur ∷ []) (clock 1) clean_state)
              cur
              true
              r
              clean_state
            ≡ some (leave_disabled clock r cur clean_state).0)
  unfolding leave_disabled
  leave_disabled-cases r = elim (Bool-cases (ltb (clock 0) (clean_state.disabled_until cur))) [
    | inr ready ↦ rw ready (inl (refl, inl (ground (arith, ready))))
    | inl cooling ↦
        rw cooling
          (elim (Option-cases (
            pick_next_proxy (available_rotation_candidates (cur ∷ []) (clock 1) clean_state) cur
              true r clean_state)) [
                | inl nothing ↦ inl (rw nothing refl, inr nothing)
                | inr (p, pick) ↦ inr (rw pick refl)
              ])
  ]

  used :
      (r : ℕ → ℕ)
      → m.rotate_interval ≡ 0
      → use_proxy clock r cur clean_state ≡ (
        some (leave_disabled clock (r 0) cur clean_state).0,
        (leave_disabled clock (r 0) cur clean_state).1,
      )
  unfolding use_proxy sanitize_runtime_state
  used r off =
      ap (λ (x : Text × ProxyManager). (some x.0, x.1))
        (rotate_if_due-never clock (r 1) (leave_disabled clock (r 0) cur clean_state).0
          (leave_disabled clock (r 0) cur clean_state).1
          (leave_disabled-interval clock (r 0) cur clean_state ∙ off))

  handed :
      (r : ℕ → ℕ)
      → m.enabled ≡ true
      → get_current_proxy clock r m ≡ use_proxy clock r cur clean_state
  unfolding get_current_proxy
  handed r on =
      ap (λ (b : Bool). if not b then (none, m) else get_proxy clock r m (current m)) on
      ∙ ap (get_proxy clock r m) at_cur

  -- the proxy is ready, unless no other listed one is
  abbrev Ready : Text → Type 0
  Ready p =
      (is_rested (clock 0) m p ≡ true)
      ⊎ (is_rested (clock 1) m p ≡ true)
      ⊎ ((q : Text)
          → one_of q m.proxies ≡ true
          → text_eq q cur ≡ false
          → is_rested (clock 1) m q ≡ false)

  module _ (valid_s : IsValid clean_state)
      (in_state : (q : Text) → one_of q clean_state.proxies ≡ one_of q m.proxies) where
    leave_disabled-Ready :
        (r : ℕ)
        → (let p = (leave_disabled clock r cur clean_state).0 in
            (one_of p m.proxies ≡ true) × Ready p)
    leave_disabled-Ready r =
        let cur_listed = current-one_of m cur at_cur in
        elim (leave_disabled-cases r) [
          | inl (stays, inl ready) ↦ rw stays (
            cur_listed,
            inl (sym (sanitize-ready m (clock 0) cur valid.clean cur_listed) ∙ ready),
          )
          | inl (stays, inr nothing) ↦ rw stays (
            cur_listed,
            inr (
                inr (λ q there other.
                  let (p, pick) =
                    picks clean_state valid_s cur (clock 1) true r listed q (in_state q ∙ there)
                      other in
                  cc)),
          )
          | inr pick ↦
              let p = (leave_disabled clock r cur clean_state).0 in
              let (there, moves) = picked clean_state valid_s cur (clock 1) true r listed p pick in
              let there' = sym (in_state p) ∙ there in
              (
                there',
                elim (Bool-cases (is_rested (clock 1) m p)) [
                  | inl ready ↦ inr (inl ready)
                  | inr cooling ↦ inr (
                      inr (λ q there_q other. elim (Bool-cases (is_rested (clock 1) m q)) [
                        | inr also ↦ also
                        | inl ready ↦
                            let fresh =
                              picked-ready clean_state valid_s cur (clock 1) true r listed q
                                (in_state q ∙ there_q) other p
                                (sanitize-ready m (clock 1) q valid.clean there_q ∙ ready) pick in
                            let fresh' =
                              sym (sanitize-ready m (clock 1) p valid.clean there') ∙ fresh in
                            cc
                      ]))
                ],
              )
        ]

  -- Without rotation by time, the proxy handed out is listed, and it is ready, unless no other listed
  -- proxy is.
  pub get_current_proxy-ready :
      (r : ℕ → ℕ)
      → m.enabled ≡ true
      → m.rotate_interval ≡ 0
      → (p : Text) × ((get_current_proxy clock r m).0 ≡ some p)
        × (one_of p m.proxies ≡ true)
        × ((is_rested (clock 0) m p ≡ true)
            ⊎ (is_rested (clock 1) m p ≡ true)
            ⊎ ((q : Text)
                → one_of q m.proxies ≡ true
                → text_eq q cur ≡ false
                → is_rested (clock 1) m q ≡ false))
  get_current_proxy-ready r on off =
      let (there, ready) =
        leave_disabled-Ready (sanitize-IsValid m valid) (λ q. ap (one_of q) (sanitize-proxies m))
          (r 0) in
      (
        (leave_disabled clock (r 0) cur clean_state).0,
        ap (λ (x : Option Text × ProxyManager). x.0) (handed r on ∙ used r off),
        there,
        ready,
      )

  turned :
      (r : ℕ → ℕ) (p : Text)
      → is_rested (clock 0) clean_state cur ≡ true
      → is_rotation_due (clock 2) m ≡ true
      → pick_next_proxy
          (available_rotation_candidates (cur ∷ []) (clock 3) clean_state)
          cur
          true
          (r 1)
          clean_state
        ≡ some p
      → (use_proxy clock r cur clean_state).0 ≡ some p
  unfolding use_proxy
  turned r p ready due pick =
      ap (λ (x : Text × ProxyManager). (some (rotate_if_due clock (r 1) x.0 x.1).0))
        (stays clock (r 0) cur clean_state ready)
      ∙ ap (λ (x : Text × ProxyManager). some x.0)
          (due_turn clock (r 1) cur clean_state p (is_rotation_due-sanitize (clock 2) m ∙ due) pick)

  -- When the rotation by time is due and all other listed proxies are cooling down, the current proxy
  -- is left for one of them, although it is ready itself.
  pub get_current_proxy-cooling :
      (r : ℕ → ℕ) (q : Text)
      → m.enabled ≡ true
      → is_rested (clock 0) m cur ≡ true
      → is_rotation_due (clock 2) m ≡ true
      → one_of q m.proxies ≡ true
      → text_eq q cur ≡ false
      → ((p : Text)
          → one_of p m.proxies ≡ true
          → text_eq p cur ≡ false
          → is_rested (clock 3) m p ≡ false)
      → (p : Text) × ((get_current_proxy clock r m).0 ≡ some p)
        × (text_eq p cur ≡ false)
        × (is_rested (clock 3) m p ≡ false)
  get_current_proxy-cooling r q on ready due there other cooling =
      let s = clean_state in
      let valid_s = sanitize-IsValid m valid in
      let same = sanitize-proxies m in
      let cur_listed = current-one_of m cur at_cur in
      let (p, pick) =
        picks s valid_s cur (clock 3) true (r 1) listed q (ap (one_of q) same ∙ there) other in
      let (there_p, moves) = picked s valid_s cur (clock 3) true (r 1) listed p pick in
      (
        p,
        ap (λ (x : Option Text × ProxyManager). x.0) (handed r on)
            ∙ turned r p (sanitize-ready m (clock 0) cur valid.clean cur_listed ∙ ready) due pick,
        moves,
        cooling p (ap (one_of p) (sym same) ∙ there_p) moves,
      )
