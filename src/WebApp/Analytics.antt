-- ===== src/WebApp/Analytics.antt =====
-- packages/web-app/src/analytics.ts and session.ts: the usage statistics. Each access of `localStorage`
-- may throw; a page where reading or writing throws keeps doing so. A call of `fetch` is an entry of
-- `sent`, and what comes of it is swallowed. `new URL` is a parameter. The devmode's warning is left out.
pub mod Calls
pub mod OptOut
pub mod Notice
use mathlib.Core.Option
use slothfulchat_web.Prelude.{
  ℕ, Bool, true, false, not, ◌&&◌, ◌||◌, Option, none, some, List, [], ◌∷◌, ◌++◌, reverse, ltb,
  ◌==◌, if◌then◌else◌, is_some, Text, codes, is_blank, text_eq, after_prefix,
}
use slothfulchat_web.WebApp.Events.{Props, is_catalog_event}

pub record Config : Type 0 where
  pub analytics : Bool
  pub plausible_domain : Text
  pub plausible_api : Text
  pub instance_url : Text

-- `location`, and `new URL(location.pathname, base)` as its origin and path, `none` where it throws.
pub record Location : Type 0 where
  pub origin : Text
  pub pathname : Text
  pub url_at : Text → Option (Text × Text)

unfoldable pub is_configured : Config → Bool
is_configured c =
    c.analytics && (not (is_blank c.plausible_domain) && not (is_blank c.plausible_api))

pub data Consent : Type 0 where
  granted denied unset : Consent

pub record Event : Type 0 where
  pub name : Text
  pub props : Props

-- The body of a request.
pub record Sent : Type 0 where
  pub event : Event
  pub domain : Text
  pub url : Text

pub record Analytics : Type 0 where
  pub readable : Bool
  pub writable : Bool
  pub consent_item : Option Text
  pub notice_item : Option Text
  pub mem_consent : Consent
  pub notice_released : Bool
  pub held_for_notice : List Event
  pub pageview_queued : Bool
  pub startup_queued : Bool
  pub had_account : Option Bool
  pub sent : List Sent

abbrev consent_of : Option Text → Consent
consent_of none = unset
consent_of (some v) =
    if text_eq v (codes "granted")
    then granted
    else (if text_eq v (codes "denied") then denied else unset)

abbrev stored_consent : Analytics → Consent
stored_consent a = if a.readable then consent_of a.consent_item else unset

abbrev first_set : Consent → Consent → Consent
first_set unset stored = stored
first_set granted stored = granted
first_set denied stored = denied

unfoldable pub get_consent : Analytics → Consent
get_consent a = first_set a.mem_consent (stored_consent a)

abbrev consent_text : Consent → Option Text
consent_text granted = some (codes "granted")
consent_text denied = some (codes "denied")
consent_text unset = none

unfoldable pub set_consent : Consent → Analytics → Analytics
set_consent consent a = record a {
  mem_consent = consent;
  consent_item = if a.writable then consent_text consent else a.consent_item;
}

abbrev pub is_denied : Consent → Bool
is_denied denied = true
is_denied granted = false
is_denied unset = false

unfoldable pub is_enabled : Config → Analytics → Bool
is_enabled c a = is_configured c && not (is_denied (get_consent a))

abbrev is_one : Option Text → Bool
is_one none = false
is_one (some v) = text_eq v (codes "1")

unfoldable pub notice_shown_before : Analytics → Bool
notice_shown_before a = a.readable && is_one a.notice_item

abbrev step_of : Props → Option Text
step_of [] = none
step_of ((k, v) ∷ props) = if text_eq k (codes "step") then some v else step_of props

abbrev is_text : Text → Option Text → Bool
is_text t none = false
is_text t (some s) = text_eq s t

unfoldable pub is_welcome : Event → Bool
is_welcome e = text_eq e.name (codes "onboarding") && is_text (codes "welcome") (step_of e.props)

unfoldable pub visitor_mode : Option Bool → Text
visitor_mode none = codes "unknown"
visitor_mode (some true) = codes "returning"
visitor_mode (some false) = codes "new"

-- `none` is `unknown`.
unfoldable pub startup_mode : Option Bool → Option Text
startup_mode none = none
startup_mode (some true) = some (codes "warm")
startup_mode (some false) = some (codes "cold")

unfoldable pub bucket_of : ℕ → Text
bucket_of ms =
    if ltb ms 500
    then codes "<0.5s"
    else (if ltb ms 1000
        then codes "0.5-1s"
        else (if ltb ms 2000
            then codes "1-2s"
            else (if ltb ms 4000 then codes "2-4s" else codes ">4s")))

-- Whether the page is shown as an installed app: the media query, and iOS's own property. A query that
-- throws is `none`, and nothing is asked after it.
unfoldable pub display_mode : Option Bool → Bool → Text
display_mode none standalone = codes "browser"
display_mode (some matches) standalone =
    if matches || standalone then codes "standalone" else codes "browser"

module _ (c : Config) (l : Location) where
  abbrev pub here : Text
  here = l.origin ++ l.pathname

  unfoldable pub origin_url : Text
  origin_url = if is_blank c.instance_url then here else elim (l.url_at c.instance_url) [
    | none ↦ here
    | some (origin, pathname) ↦ origin ++ pathname
  ]

  abbrev pub body : Event → Sent
  body e = record { event = e; domain = c.plausible_domain; url = origin_url }

  abbrev pub post : Event → Analytics → Analytics
  post e a = record a { sent = body e ∷ a.sent }

  abbrev pub hold : Event → Analytics → Analytics
  hold e a = record a { held_for_notice = a.held_for_notice ++ (e ∷ []) }

  -- What stands behind the release in `event`.
  unfoldable pub admit : Event → Analytics → Analytics
  admit e a =
      if not a.notice_released && not (notice_shown_before a)
      then hold e a
      else (if not (is_enabled c a)
          then a
          else (if is_catalog_event e.name e.props then post e a else a))

  unfoldable pub admit_all : List Event → Analytics → Analytics
  admit_all [] a = a
  admit_all (e ∷ es) a = admit_all es (admit e a)

  abbrev pub mark_released : Analytics → Analytics
  mark_released a = record a {
    notice_released = true;
    notice_item = if is_configured c && a.writable then some (codes "1") else a.notice_item;
    held_for_notice = [];
  }

  -- The held calls enter `event` again, whose own release finds the notice released.
  unfoldable pub release_held : Analytics → Analytics
  release_held a = if a.notice_released then a else admit_all a.held_for_notice (mark_released a)

  unfoldable pub event : Event → Analytics → Analytics
  event e a = admit e (if is_welcome e then release_held a else a)

  unfoldable pub pageview : Text → Analytics → Analytics
  pageview display a =
      if a.pageview_queued
      then a
      else event
          (record {
            name = codes "pageview";
            props = (codes "mode", visitor_mode a.had_account) ∷ (codes "display", display) ∷ [];
          })
          (record a { pageview_queued = true })

  abbrev pub startup_event : ℕ → Text → Event
  startup_event ms mode = record {
    name = codes "startup";
    props = (codes "bucket", bucket_of ms) ∷ (codes "mode", mode) ∷ [];
  }

  abbrev pub start_in : ℕ → Option Text → Analytics → Analytics
  start_in ms none a = a
  start_in ms (some mode) a = event (startup_event ms mode) (record a { startup_queued = true })

  unfoldable pub track_startup : Option ℕ → Analytics → Analytics
  track_startup none a = a
  track_startup (some ms) a =
      if a.startup_queued then a else start_in ms (startup_mode a.had_account) a

  abbrev yes_no : Bool → Text
  yes_no true = codes "yes"
  yes_no false = codes "no"

  unfoldable pub call_event : Bool → Bool → Text → Event
  call_event outgoing has_video result = record {
    name = codes "call";
    props =
        (codes "direction", if outgoing then codes "outgoing" else codes "incoming")
        ∷ (codes "has_video", yes_no has_video)
        ∷ (codes "result", result)
        ∷ [];
  }

  unfoldable pub track_call : Bool → Bool → Text → Analytics → Analytics
  track_call outgoing has_video result a = event (call_event outgoing has_video result) a

abbrev ends_with : Text → Text → Bool
ends_with s t = is_some (after_prefix (reverse t) (reverse s))

-- `replace(/\/$/, '')`
abbrev drop_slash : Text → Text
drop_slash s = elim (after_prefix (codes "/") (reverse s)) [ none ↦ s | some t ↦ reverse t ]

abbrev of_project : Text → Bool
of_project path = elim (after_prefix (codes "/experintellia/slothfulchat-web") path) [
  | none ↦ false
  | some [] ↦ true
  | some (d ∷ s) ↦ d == 47
]

-- The target of a link whose URL has an origin and a path name, read at a page of the origin `own`.
unfoldable pub link_target : Text → Text → Text → Option Text
link_target own origin pathname =
    if text_eq origin own && ends_with pathname (codes "/imprint.html")
    then some (codes "imprint")
    else (if text_eq origin own && ends_with (drop_slash pathname) (codes "/changelog")
        then some (codes "changelog")
        else (if text_eq origin (codes "https://delta.chat")
              && text_eq (drop_slash pathname) (codes "/donate")
            then some (codes "donate")
            else (if text_eq origin (codes "https://github.com") && of_project pathname
                then some (codes "github")
                else none)))

module _ (c : Config) (l : Location) where
  abbrev pub link_event : Text → Event
  link_event target = record { name = codes "link"; props = (codes "target", target) ∷ [] }

  abbrev pub track_target : Option Text → Analytics → Analytics
  track_target none a = a
  track_target (some target) a = event c l (link_event target) a

  -- The link as `new URL` reads it, `none` where that throws.
  unfoldable pub track_link : Option (Text × Text) → Analytics → Analytics
  track_link none a = a
  track_link (some (origin, pathname)) a = track_target (link_target l.origin origin pathname) a

-- A page that loads.
abbrev pub loaded : Bool → Bool → Option Text → Option Text → Analytics
loaded readable writable consent notice = record {
  readable = readable;
  writable = writable;
  consent_item = consent;
  notice_item = notice;
  mem_consent = unset;
  notice_released = false;
  held_for_notice = [];
  pageview_queued = false;
  startup_queued = false;
  had_account = none;
  sent = [];
}
