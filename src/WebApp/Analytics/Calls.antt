-- ===== src/WebApp/Analytics/Calls.antt =====
-- The calls that the rest of the page makes of packages/web-app/src/analytics.ts, in any order, and what
-- they leave alone.
use slothfulchat_web.Prelude.{
  ℕ, ◌≡◌, inl, inr, Bool, true, false, ◌&&◌, Option, none, some, List, [], ◌∷◌, Bool-cases,
  if-keeps, Text,
}
use slothfulchat_web.WebApp.Analytics.{
  Config, Location, Consent, Event, Analytics, set_consent, is_welcome, startup_mode, admit,
  admit_all, mark_released, release_held, event, pageview, startup_event, start_in, track_startup,
  track_call, link_target, link_event, track_target, track_link, loaded,
}

pub data Call : Type 0 where
  chosen : Consent → Call
  track : Event → Call
  ui_ready : Call
  opened : Text → Call
  started : Option ℕ → Call
  called : Bool → Bool → Text → Call
  followed : Option (Text × Text) → Call
  learned : Bool → Call

module _ (c : Config) (l : Location) where
  unfoldable pub step : Call → Analytics → Analytics
  step (chosen k) a = set_consent k a
  step (track e) a = event c l e a
  step ui_ready a = release_held c l a
  step (opened display) a = pageview c l display a
  step (started ms) a = track_startup c l ms a
  step (called outgoing has_video result) a = track_call c l outgoing has_video result a
  step (followed link) a = track_link c l link a
  step (learned had) a = record a { had_account = some had }

  unfoldable pub run : List Call → Analytics → Analytics
  run [] a = a
  run (x ∷ xs) a = run xs (step x a)

-- A page that loads later in the same browser.
abbrev pub reload : Analytics → Analytics
reload a = loaded a.readable a.writable a.consent_item a.notice_item

abbrev pub keeps_consent : Call → Bool
keeps_consent (chosen k) = false
keeps_consent (track e) = true
keeps_consent ui_ready = true
keeps_consent (opened display) = true
keeps_consent (started ms) = true
keeps_consent (called outgoing has_video result) = true
keeps_consent (followed link) = true
keeps_consent (learned had) = true

abbrev pub all_keep_consent : List Call → Bool
all_keep_consent [] = true
all_keep_consent (x ∷ xs) = keeps_consent x && all_keep_consent xs

-- What holds of a page whenever it held before its parts were run.
module _ (c : Config) (l : Location) (P : Analytics → Type 0)
    (admitted : (e : Event) (a : Analytics) → P a → P (admit c l e a))
    (released : (a : Analytics) → P a → P (mark_released c l a))
    (viewed : (a : Analytics) → P a → P (record a { pageview_queued = true }))
    (timed : (a : Analytics) → P a → P (record a { startup_queued = true }))
    (told : (b : Bool) (a : Analytics) → P a → P (record a { had_account = some b })) where
  admit_all-keeps : (es : List Event) (a : Analytics) → P a → P (admit_all c l es a)
  unfolding admit_all
  admit_all-keeps [] a h = h
  admit_all-keeps (e ∷ es) a h = admit_all-keeps es (admit c l e a) (admitted e a h)

  release_held-keeps : (a : Analytics) → P a → P (release_held c l a)
  unfolding release_held
  release_held-keeps a h =
      if-keeps P a.notice_released _ _ h
        (admit_all-keeps a.held_for_notice (mark_released c l a) (released a h))

  event-keeps : (e : Event) (a : Analytics) → P a → P (event c l e a)
  unfolding event
  event-keeps e a h = admitted e _ (if-keeps P (is_welcome e) _ _ (release_held-keeps a h) h)

  start_in-keeps : (ms : ℕ) (mode : Option Text) (a : Analytics) → P a → P (start_in c l ms mode a)
  start_in-keeps ms none a h = h
  start_in-keeps ms (some mode) a h = event-keeps (startup_event c l ms mode) _ (timed a h)

  track_startup-keeps : (ms : Option ℕ) (a : Analytics) → P a → P (track_startup c l ms a)
  unfolding track_startup
  track_startup-keeps none a h = h
  track_startup-keeps (some ms) a h =
      if-keeps P a.startup_queued _ _ h (start_in-keeps ms (startup_mode a.had_account) a h)

  track_target-keeps : (target : Option Text) (a : Analytics) → P a → P (track_target c l target a)
  track_target-keeps none a h = h
  track_target-keeps (some target) a h = event-keeps (link_event c l target) a h

  track_link-keeps : (link : Option (Text × Text)) (a : Analytics) → P a → P (track_link c l link a)
  unfolding track_link
  track_link-keeps none a h = h
  track_link-keeps (some (origin, pathname)) a h =
      track_target-keeps (link_target l.origin origin pathname) a h

  pageview-keeps : (display : Text) (a : Analytics) → P a → P (pageview c l display a)
  unfolding pageview
  pageview-keeps display a h = if-keeps P a.pageview_queued _ _ h (event-keeps _ _ (viewed a h))

  pub step-keeps : (x : Call) (a : Analytics) → keeps_consent x ≡ true → P a → P (step c l x a)
  unfolding step track_call
  step-keeps (chosen k) a e h = cc
  step-keeps (track x) a e h = event-keeps x a h
  step-keeps ui_ready a e h = release_held-keeps a h
  step-keeps (opened display) a e h = pageview-keeps display a h
  step-keeps (started ms) a e h = track_startup-keeps ms a h
  step-keeps (called outgoing has_video result) a e h = event-keeps _ a h
  step-keeps (followed link) a e h = track_link-keeps link a h
  step-keeps (learned had) a e h = told had a h

  pub run-keeps :
      (xs : List Call) (a : Analytics) → all_keep_consent xs ≡ true → P a → P (run c l xs a)
  unfolding run
  run-keeps [] a e h = h
  run-keeps (x ∷ xs) a e h = elim (Bool-cases (keeps_consent x)) [
    | inl y ↦ run-keeps xs (step c l x a) (simp y at e) (step-keeps x a y h)
    | inr n ↦ cc (simp n at e)
  ]
