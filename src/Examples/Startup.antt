-- ===== src/Examples/Startup.antt =====
-- packages/web-app/src/runtime.ts, the start of the core, at concrete pages.
use slothfulchat_web.Prelude.{
  ◌≡◌, refl, true, false, Option, none, some, List, [], ◌∷◌, ◌++◌, Text, codes,
}
use slothfulchat_web.WebApp.Events.{is_catalog_event}
use slothfulchat_web.WebApp.Startup.{
  throwaway_requested, throwaway_confirmed, show_throwaway_gate, loading, start_throwaway,
  warn_if_no_web_assembly, get_core, fatal_worker_died, on_worker_message, fallback, bridge_need,
}
use slothfulchat_web.WebApp.Startup.Guarded.{
  Act, needs_core, posts, starts_throwaway, act, act_all, IsGuarded, session-IsGuarded,
}

abbrev barred : List Act
barred = needs_core (codes "local") true ∷ posts fatal_worker_died ∷ starts_throwaway ∷ []

abbrev saved_nothing : Option Text
saved_nothing = some (codes "0")

session-IsGuarded_example : IsGuarded (
    act_all
      (barred ++ (needs_core (codes "local") true ∷ []))
      (loading saved_nothing (some none) true))
session-IsGuarded_example =
    session-IsGuarded saved_nothing (some none) true
      (barred ++ (needs_core (codes "local") true ∷ []))

confirmed_test :
    (act_all
      (barred ++ (needs_core (codes "local") true ∷ []))
      (loading saved_nothing (some none) true)).core
    ≡ some false
unfolding act_all act get_core show_throwaway_gate throwaway_requested throwaway_confirmed
    start_throwaway on_worker_message warn_if_no_web_assembly
confirmed_test = refl

-- The kind that the page gives a worker that died is not in the catalogue: `event` drops it.
worker_died_is_dropped :
    is_catalog_event (codes "boot_error") ((codes "kind", codes "worker-died") ∷ []) ≡ false
unfolding is_catalog_event
worker_died_is_dropped = refl

needs_test :
    bridge_need false true (some ((codes "a", true) ∷ (codes "b", false) ∷ [])) (some (codes "a"))
    ≡ fallback
unfolding bridge_need
needs_test = refl
