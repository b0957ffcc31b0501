-- ===== src/Examples/Core.antt =====
-- packages/core-wasm/src/index.ts: the theorem on the page's side of the core at a concrete run.
use slothfulchat_web.Prelude.{
  ◌+◌, ◌≡◌, ◌⊎◌, refl, none, some, List, [], ◌∷◌, true, is_some, count_if, count,
}
use slothfulchat_web.CoreWasm.Core.{
  fs_posted, rpc_passed_on, Core, start_core, CoreEvent, calls_fs, calls_rpc, worker_errs,
  library_sets, fs_request, request, step, steps,
}
use slothfulchat_web.CoreWasm.Core.Shutdown.{settlements, notices, issued}
use slothfulchat_web.CoreWasm.Core.Abandoned.{Abandons, core_settles}

abbrev busy : List CoreEvent
busy = calls_fs ∷ calls_rpc ∷ library_sets (some (7 ∷ 8 ∷ [])) ∷ []

core_settles_example :
    (c : Core) × (steps busy start_core ≡ some c)
    × (settlements 1 c.log + count 1 c.pending ≡ issued 1 c.next_id)
    × (notices c.log ≡ count_if (is_some c.dead))
    × (is_some c.transport.dead ≡ is_some c.dead)
    × (((is_some c.dead ≡ true) × (c.pending ≡ []))
        ⊎ ((c.dead ≡ none) × Abandons 1 c (step (worker_errs "panic") c)))
core_settles_example = core_settles busy (worker_errs "panic") 1 refl

-- What is in flight then: one request to the file system, and two to the core.
in_flight :
    ((steps busy start_core)
      ≡ some (record start_core {
        next_id = 2;
        pending = 1 ∷ [];
        transport = record { dead = none; requests = some (7 ∷ 8 ∷ []) };
        log = rpc_passed_on ∷ fs_posted 1 ∷ [];
      }))
unfolding steps step fs_request request start_core
in_flight = refl
