-- ===== src/Examples/Usage.antt =====
-- The usage statistics and their telemetry at concrete inputs.
use slothfulchat_web.Prelude.{
  ◌≡◌, refl, ◌⊎◌, true, false, ◌&&◌, none, some, List, [], ◌∷◌, ◌++◌, map, if◌then◌else◌, length,
  All, codes,
}
use slothfulchat_web.WebApp.Events.{is_catalog_event}
use slothfulchat_web.WebApp.Analytics.{
  Config, Location, is_configured, denied, Event, Analytics, get_consent, set_consent, is_enabled,
  notice_shown_before, is_welcome, admit, admit_all, release_held, event, link_target, loaded,
}
use slothfulchat_web.WebApp.Analytics.Calls.{track, ui_ready, step, run, reload}
use slothfulchat_web.WebApp.Analytics.OptOut.{opt_out_lasts}
use slothfulchat_web.WebApp.Analytics.Notice.{requests, held_until_notice}
use slothfulchat_web.WebApp.Telemetry.{
  add_or_update_transport, send_msg, secure_join, Params, starting, says_webimap, viewtype_of,
  named, on_configure, handle, request, on_configured, resolved, wake, wake_all, settle, Happening,
  asked, settled, observe, observe_all,
}
use slothfulchat_web.WebApp.Telemetry.Words.{Conforms}
use slothfulchat_web.WebApp.Telemetry.Catalogued.{observe_all-Conforms}

abbrev demo : Config
demo = record {
  analytics = true;
  plausible_domain = codes "demo.example";
  plausible_api = codes "https://stats.example/api/event";
  instance_url = [];
}

abbrev page : Location
page = record { origin = codes "https://demo.example"; pathname = codes "/"; url_at = λ _. none }

abbrev scan : Event
scan = named "qr_scan" []

abbrev welcome : Event
welcome = named "onboarding" (("step", codes "welcome") ∷ [])

abbrev free_text : Event
free_text = named "send" (("type", codes "hello") ∷ [])

abbrev visited : Analytics
visited = loaded true true none (some (codes "1"))

sent_test : length (run demo page (track scan ∷ track free_text ∷ []) visited).sent ≡ 1
unfolding run step event admit release_held is_welcome notice_shown_before is_enabled is_configured
    get_consent is_catalog_event
sent_test = refl

released_test :
    length (run demo page (track scan ∷ track welcome ∷ []) (loaded true true none none)).sent ≡ 2
unfolding run step event admit admit_all release_held is_welcome notice_shown_before is_enabled
    is_configured get_consent is_catalog_event
released_test = refl

link_test :
    link_target
      (codes "https://demo.example")
      (codes "https://github.com")
      (codes "/experintellia/slothfulchat-web/issues")
    ≡ some (codes "github")
unfolding link_target
link_test = refl

opt_out_lasts_example :
    ((run demo page (track scan ∷ ui_ready ∷ []) (set_consent denied visited)).sent ≡ [])
    × (((run demo page
            (track scan ∷ [])
            (reload (run demo page (track scan ∷ ui_ready ∷ []) (set_consent denied visited)))).sent
          ≡ [])
        ⊎ ((visited.readable && visited.writable) ≡ false))
opt_out_lasts_example =
    opt_out_lasts demo page visited (track scan ∷ ui_ready ∷ []) (track scan ∷ []) refl refl

held_until_notice_example :
    let a = run demo page (track scan ∷ []) (loaded true true none none) in
    (a.sent ≡ [])
    × ((release_held demo page (run demo page (map track (free_text ∷ scan ∷ [])) a)).sent ≡ (
        if is_enabled demo a
        then requests demo page (a.held_for_notice ++ (free_text ∷ scan ∷ [])) []
        else []))
held_until_notice_example =
    held_until_notice demo page true true none none (track scan ∷ []) (free_text ∷ scan ∷ [])
      (unfold notice_shown_before in refl) (unfold is_welcome in refl) (unfold is_welcome in refl)

abbrev login : Params
login = record {
  account = some 1;
  second = codes "dcaccount:example.org";
  viewtype = codes "Gif";
  json = codes "[1,{\"webimap\": true}]";
}

abbrev session : List Happening
session =
    asked secure_join login
    ∷ asked add_or_update_transport login
    ∷ settled 1 (resolved 0)
    ∷ asked send_msg login
    ∷ []

session_test :
    (observe_all (λ s. s) session (starting (some []) true)).emitted
    ≡ named "send"
        (("type", codes "image") ∷ ("transport", codes "webimap") ∷ ("chatmail", codes "no") ∷ [])
      ∷ named "onboarding" (("step", codes "success") ∷ ("method", codes "webimap") ∷ [])
      ∷ named "account_created" (("transport", codes "webimap") ∷ ("method", codes "webimap") ∷ [])
      ∷ named "onboarding" (("step", codes "configuring") ∷ ("method", codes "webimap") ∷ [])
      ∷ scan
      ∷ []
unfolding observe_all observe request handle on_configure on_configured says_webimap settle wake_all
    wake viewtype_of
session_test = refl

observe_all-Conforms_example :
    All Conforms (observe_all (λ s. s) session (starting (some []) true)).emitted
observe_all-Conforms_example = observe_all-Conforms (λ s. s) (some []) true session
