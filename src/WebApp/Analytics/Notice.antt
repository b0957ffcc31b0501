-- ===== src/WebApp/Analytics/Notice.antt =====
-- packages/web-app/src/analytics.ts: nothing is sent before the notice has been on screen, and what is held
-- for it is sent then.
use slothfulchat_web.Prelude.{
  ℕ, ◌≡◌, refl, ap, ◌∙◌, inl, inr, Bool, true, false, not, ◌&&◌, Option, none, some, List, [], ◌∷◌,
  ◌++◌, map, append_assoc, append-nil, arith, if◌then◌else◌, Bool-cases, if-keeps, Text,
}
use slothfulchat_web.WebApp.Events.{is_catalog_event}
use slothfulchat_web.WebApp.Analytics.{
  Config, Location, Event, Sent, Analytics, get_consent, set_consent, is_enabled,
  notice_shown_before, is_welcome, startup_mode, body, post, admit, admit_all, mark_released,
  release_held, event, pageview, startup_event, start_in, track_startup, call_event, track_call,
  link_target, link_event, track_target, track_link, loaded,
}
use slothfulchat_web.WebApp.Analytics.Calls.{
  Call, chosen, track, ui_ready, opened, started, called, followed, learned, step, run,
}

-- The calls that do not say that the notice is on screen.
abbrev pub before_notice : Call → Bool
before_notice (chosen k) = true
before_notice (track e) = not (is_welcome e)
before_notice ui_ready = false
before_notice (opened display) = true
before_notice (started ms) = true
before_notice (called outgoing has_video result) = true
before_notice (followed link) = true
before_notice (learned had) = true

abbrev pub all_before_notice : List Call → Bool
all_before_notice [] = true
all_before_notice (x ∷ xs) = before_notice x && all_before_notice xs

-- What the catalogue has, as requests, the last one first.
abbrev pub requests : Config → Location → List Event → List Sent → List Sent
requests c l [] sent = sent
requests c l (e ∷ es) sent =
    requests c l es (if is_catalog_event e.name e.props then body c l e ∷ sent else sent)

-- Nothing was sent, and the notice was not on screen in this browser.
pub record IsWaiting (a : Analytics) : Type 0 where
  pub silent : a.sent ≡ []
  pub unreleased : a.notice_released ≡ false
  pub unseen : notice_shown_before a ≡ false

module _ (c : Config) (l : Location) where
  -- An event is held at the end.
  admit-IsWaiting :
      (e : Event) (a : Analytics)
      → IsWaiting a
      → admit c l e a ≡ record a { held_for_notice = a.held_for_notice ++ (e ∷ []) }
  unfolding admit
  admit-IsWaiting e a h = ground arith

  event-IsWaiting :
      (e : Event) (a : Analytics) → is_welcome e ≡ false → IsWaiting a → IsWaiting (event c l e a)
  unfolding event notice_shown_before
  event-IsWaiting e a n h = simp (n, admit-IsWaiting e a h) (ground arith)

  start_in-IsWaiting :
      (ms : ℕ) (mode : Option Text) (a : Analytics)
      → IsWaiting a
      → IsWaiting (start_in c l ms mode a)
  unfolding notice_shown_before is_welcome
  start_in-IsWaiting ms none a h = h
  start_in-IsWaiting ms (some mode) a h =
      event-IsWaiting (startup_event c l ms mode) _ refl (ground arith)

  track_target-IsWaiting :
      (target : Option Text) (a : Analytics) → IsWaiting a → IsWaiting (track_target c l target a)
  unfolding is_welcome
  track_target-IsWaiting none a h = h
  track_target-IsWaiting (some target) a h = event-IsWaiting (link_event c l target) a refl h

  step-IsWaiting :
      (x : Call) (a : Analytics) → before_notice x ≡ true → IsWaiting a → IsWaiting (step c l x a)
  unfolding step track_call call_event set_consent notice_shown_before is_welcome pageview
      track_startup track_link
  step-IsWaiting (chosen k) a n h = ground arith
  step-IsWaiting (track e) a n h = event-IsWaiting e a (ground arith) h
  step-IsWaiting ui_ready a n h = cc
  step-IsWaiting (opened display) a n h =
      if-keeps IsWaiting a.pageview_queued _ _ h (event-IsWaiting _ _ refl (ground arith))
  step-IsWaiting (started none) a n h = h
  step-IsWaiting (started (some ms)) a n h =
      if-keeps IsWaiting a.startup_queued _ _ h
        (start_in-IsWaiting ms (startup_mode a.had_account) a h)
  step-IsWaiting (called outgoing has_video result) a n h = event-IsWaiting _ a refl h
  step-IsWaiting (followed none) a n h = h
  step-IsWaiting (followed (some (origin, pathname))) a n h =
      track_target-IsWaiting (link_target l.origin origin pathname) a h
  step-IsWaiting (learned had) a n h = ground arith

  run-IsWaiting :
      (xs : List Call) (a : Analytics)
      → all_before_notice xs ≡ true
      → IsWaiting a
      → IsWaiting (run c l xs a)
  unfolding run
  run-IsWaiting [] a n h = h
  run-IsWaiting (x ∷ xs) a n h = elim (Bool-cases (before_notice x)) [
    | inl y ↦ run-IsWaiting xs (step c l x a) (simp y at n) (step-IsWaiting x a y h)
    | inr z ↦ cc (simp z at n)
  ]

  admit-off :
      (e : Event) (a : Analytics)
      → a.notice_released ≡ true
      → is_enabled c a ≡ false
      → admit c l e a ≡ a
  unfolding admit
  admit-off e a r n = ground arith

  admit-on :
      (e : Event) (a : Analytics)
      → a.notice_released ≡ true
      → is_enabled c a ≡ true
      → admit c l e a ≡ (if is_catalog_event e.name e.props then post c l e a else a)
  unfolding admit
  admit-on e a r n = ground arith

  admit_all-off :
      (es : List Event) (a : Analytics)
      → a.notice_released ≡ true
      → is_enabled c a ≡ false
      → admit_all c l es a ≡ a
  unfolding admit_all
  admit_all-off [] a r n = refl
  admit_all-off (e ∷ es) a r n = simp (admit-off e a r n) (admit_all-off es a r n)

  admit_all-on :
      (es : List Event) (a : Analytics)
      → a.notice_released ≡ true
      → is_enabled c a ≡ true
      → (admit_all c l es a).sent ≡ requests c l es a.sent
  unfolding admit_all is_enabled get_consent
  admit_all-on [] a r n = refl
  admit_all-on (e ∷ es) a r n = elim (Bool-cases (is_catalog_event e.name e.props)) [
    | inl y ↦ simp (admit-on e a r n, y) (admit_all-on es (post c l e a) r n)
    | inr z ↦ simp (admit-on e a r n, z) (admit_all-on es a r n)
  ]

  event-held :
      (e : Event) (a : Analytics)
      → is_welcome e ≡ false
      → IsWaiting a
      → event c l e a ≡ record a { held_for_notice = a.held_for_notice ++ (e ∷ []) }
  unfolding event
  event-held e a n h = simp n (admit-IsWaiting e a h)

  held-IsWaiting :
      (e : Event) (a : Analytics)
      → IsWaiting a
      → IsWaiting (record a { held_for_notice = a.held_for_notice ++ (e ∷ []) })
  unfolding notice_shown_before
  held-IsWaiting e a h = ground arith

  -- What is tracked while nothing may be sent is held in order, and nothing else changes.
  tracked-held :
      (es : List Event) (a : Analytics)
      → all_before_notice (map track es) ≡ true
      → IsWaiting a
      → run c l (map track es) a ≡ record a { held_for_notice = a.held_for_notice ++ es }
  unfolding run step
  tracked-held [] a n h = simp append-nil refl
  tracked-held (e ∷ es) a n h = elim (Bool-cases (is_welcome e)) [
    | inl y ↦ cc (simp y at n)
    | inr z ↦
        let later =
          tracked-held es (record a { held_for_notice = a.held_for_notice ++ (e ∷ []) })
            (simp z at n) (held-IsWaiting e a h) in
        ap (run c l (map track es)) (event-held e a z h) ∙ simp append_assoc at later
  ]

  release-on :
      (a : Analytics)
      → a.notice_released ≡ false
      → is_enabled c a ≡ true
      → (release_held c l a).sent ≡ requests c l a.held_for_notice a.sent
  unfolding release_held is_enabled get_consent
  release-on a r n = simp r (admit_all-on a.held_for_notice (mark_released c l a) refl n)

  release-off :
      (a : Analytics)
      → a.notice_released ≡ false
      → is_enabled c a ≡ false
      → (release_held c l a).sent ≡ a.sent
  unfolding release_held is_enabled get_consent
  release-off a r n = simp (r, admit_all-off a.held_for_notice (mark_released c l a) refl n)

  release_lem :
      (a : Analytics)
      → a.notice_released ≡ false
      → (release_held c l a).sent
        ≡ (if is_enabled c a then requests c l a.held_for_notice a.sent else a.sent)
  release_lem a r = elim (Bool-cases (is_enabled c a)) [
    | inl y ↦ simp y (release-on a r y)
    | inr n ↦ simp n (release-off a r n)
  ]

  waiting_lem :
      (a : Analytics) (es : List Event)
      → IsWaiting a
      → all_before_notice (map track es) ≡ true
      → (release_held c l (run c l (map track es) a)).sent
        ≡ (if is_enabled c a then requests c l (a.held_for_notice ++ es) [] else [])
  unfolding is_enabled get_consent
  waiting_lem a es h n =
      let released =
        release_lem (record a { held_for_notice = a.held_for_notice ++ es }) h.unreleased in
      ap (λ b. (release_held c l b).sent) (tracked-held es a n h)
      ∙ (released
          ∙ ap
              (λ sent. if is_enabled c a then requests c l (a.held_for_notice ++ es) sent else sent)
              h.silent)

IsWaiting-loaded :
    (readable writable : Bool) (consent notice : Option Text)
    → notice_shown_before (loaded readable writable consent notice) ≡ false
    → IsWaiting (loaded readable writable consent notice)
IsWaiting-loaded readable writable consent notice h = record {
  silent = refl;
  unreleased = refl;
  unseen = h;
}

-- A page that loads in a browser which has not had the notice on screen sends nothing, whatever is called,
-- until it is; all that was held for it, and whatever was tracked last, is then sent in the order of the
-- calls as far as the catalogue has it, or dropped if the statistics are off.
pub held_until_notice :
    (c : Config) (l : Location) (readable writable : Bool) (consent notice : Option Text)
    (xs : List Call) (es : List Event)
    → notice_shown_before (loaded readable writable consent notice) ≡ false
    → all_before_notice xs ≡ true
    → all_before_notice (map track es) ≡ true
    → let a = run c l xs (loaded readable writable consent notice) in
      (a.sent ≡ [])
      × ((release_held c l (run c l (map track es) a)).sent
          ≡ (if is_enabled c a then requests c l (a.held_for_notice ++ es) [] else []))
held_until_notice c l readable writable consent notice xs es unseen hx he =
    let h =
      run-IsWaiting c l xs (loaded readable writable consent notice) hx
        (IsWaiting-loaded readable writable consent notice unseen) in
    (h.silent, waiting_lem c l (run c l xs (loaded readable writable consent notice)) es h he)
