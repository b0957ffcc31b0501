-- ===== src/Examples/Proxy.antt =====
-- packages/ws-tcp-proxy/ws-tcp-proxy.mjs: the theorem on a hosted bridge at a concrete run.
use slothfulchat_web.Prelude.{
  ℕ, ◌≡◌, refl, ◌⊎◌, Bool, true, false, Option, none, some, List, [], ◌∷◌, Text, codes,
}
use slothfulchat_web.Proxy.{
  Environment, Settings, is_empty, parse_allowlist, binds_loopback_only, start, answered, opened,
  forbidden, closed, new_bridge, ip_allowed, is_allowlisted, answer, on_dns, on_resolved, open_port,
  on_connection, ProxyEvent, connects, resolves, step, run,
}
use slothfulchat_web.Proxy.Allowed.{Justified}
use slothfulchat_web.Proxy.Vetted.{start-Justified}
use slothfulchat_web.WebApp.BlobResponse.{number}

abbrev hosted : Environment
hosted = record {
  host = some (codes "0.0.0.0");
  chatmail_allowlist = some (codes "nine.testrun.org, ");
  chatmail_whitelist = none;
  unfurl = none;
}

abbrev hosted_settings : Settings
hosted_settings = record {
  host = codes "0.0.0.0";
  allowlist = codes "nine.testrun.org" ∷ [];
  unfurl = false;
}

abbrev same_case : Text → Text
same_case s = s

abbrev never_loopback : Text → Bool
never_loopback s = false

abbrev as_number : Text → Option ℕ
as_number s = some (number s)

started : start same_case never_loopback hosted ≡ some hosted_settings
unfolding start parse_allowlist binds_loopback_only
started = refl

refused_test : start same_case never_loopback (record hosted { chatmail_allowlist = none }) ≡ none
unfolding start parse_allowlist binds_loopback_only
refused_test = refl

abbrev traffic : List (ℕ × ProxyEvent)
traffic =
    (0, connects (codes "/dns/nine.testrun.org"))
    ∷ (5, resolves (codes "nine.testrun.org") (codes "5.6.7.8" ∷ []))
    ∷ (9, connects (codes "/tcp/5.6.7.8/993"))
    ∷ (700000, connects (codes "/tcp/5.6.7.8/993"))
    ∷ []

traffic_test :
    (run same_case as_number hosted_settings.allowlist traffic new_bridge).log
    ≡ forbidden
      ∷ opened (codes "5.6.7.8") 993 9
      ∷ closed
      ∷ answered (codes "nine.testrun.org") (codes "5.6.7.8" ∷ []) 5
      ∷ []
unfolding run step on_connection on_dns on_resolved open_port answer is_allowlisted ip_allowed
traffic_test = refl

start-Justified_example :
    ((binds_loopback_only never_loopback hosted_settings.host ≡ true)
      × (is_empty hosted_settings.allowlist ≡ true))
    ⊎ Justified same_case hosted_settings.allowlist
        (run same_case as_number hosted_settings.allowlist traffic new_bridge).log
start-Justified_example =
    start-Justified same_case as_number never_loopback hosted hosted_settings traffic started
