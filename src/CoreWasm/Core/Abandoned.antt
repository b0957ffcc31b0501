-- ===== src/CoreWasm/Core/Abandoned.antt =====
-- packages/core-wasm/src/index.ts: the failure of the core worker rejects all that is in flight.
use Prim.Native.String.{String}
use slothfulchat_web.Prelude.{
  refl, ◌⊎◌, inl, inr, Option-cases, count_if, ℕ, ◌+◌, ◌≡◌, ap, ◌∙◌, Bool, true, false, Option,
  none, some, List, [], is_some, count,
}
use slothfulchat_web.CoreWasm.Core.{
  kept, Core, start_core, shut, fail, rounds, CoreEvent, calls_fs, calls_rpc, fs_message,
  worker_errs, cannot_clone, worker_died, library_sets, step, steps,
}
use slothfulchat_web.CoreWasm.Core.Shutdown.{
  settlements, notices, issued, refusals, rejections, Accounts, shut-rejections, shut-refusals,
  fail-alive,
}
use slothfulchat_web.CoreWasm.Core.Failure.{steps-Handles, start-Accounts}

-- The ways in which a worker fails.
abbrev pub is_failure : CoreEvent → Bool
is_failure (worker_errs m) = true
is_failure cannot_clone = true
is_failure (worker_died m) = true
is_failure _ = false

-- What is left of an alive core's requests, and how often request `n` of each kind was rejected.
abbrev pub Abandons : ℕ → Core → Option Core → Type 0
Abandons n c r =
    (d : Core) × (r ≡ some d)
    × (d.pending ≡ [])
    × (refusals n d.log ≡ refusals n c.log + count n c.pending)
    × (kept d.transport ≡ [])
    × (rejections n d.log ≡ rejections n c.log + count n (kept c.transport))

fail-Abandons :
    (m : String) (n : ℕ) (c : Core) → Accounts c → c.dead ≡ none → Abandons n c (fail rounds m c)
fail-Abandons m n c h e =
    let alive : is_some c.transport.dead ≡ false = h.joined ∙ ap is_some e in
    let (gone, rejected) = shut-rejections m n c alive in
    let (empty, refused) = shut-refusals m n c in
    (shut m c, fail-alive m c e, empty, refused, gone, rejected)

abandoned :
    (x : CoreEvent) (n : ℕ) (c : Core)
    → Accounts c
    → c.dead ≡ none
    → is_failure x ≡ true
    → Abandons n c (step x c)
unfolding step
abandoned (worker_errs m) n c h e f = fail-Abandons _ n c h e
abandoned cannot_clone n c h e f = fail-Abandons _ n c h e
abandoned (worker_died m) n c h e f = fail-Abandons _ n c h e
abandoned calls_fs n c h e f = cc
abandoned calls_rpc n c h e f = cc
abandoned (fs_message r) n c h e f = cc
abandoned (library_sets ns) n c h e f = cc

dead_or_alive :
    (x : CoreEvent) (n : ℕ) (c : Core)
    → Accounts c
    → is_failure x ≡ true
    → ((is_some c.dead ≡ true) × (c.pending ≡ [])) ⊎ ((c.dead ≡ none) × Abandons n c (step x c))
dead_or_alive x n c h f = elim (Option-cases c.dead) [
  | inl e ↦ inr (e, abandoned x n c h e f)
  | inr (m, e) ↦ let y : is_some c.dead ≡ true = rw e refl in inl (y, h.gone y)
]

-- However calls, responses and failures of the worker follow each other, the page handles them all. A
-- request to the file system that was posted is pending or was settled, never both and never twice. The
-- user was notified once if the worker has failed, and not before; the transport is dead exactly then. Once
-- the worker has failed no request to the file system is pending; and as long as it has not, a failure of
-- whichever kind is handled so that all that is in flight is rejected: each request to the file system as
-- often as it is pending, with none pending after that, and each JSON-RPC request as often as the library
-- keeps it under the name that the transport knows, with none kept there after that.
pub core_settles :
    (xs : List CoreEvent) (x : CoreEvent) (n : ℕ)
    → is_failure x ≡ true
    → (c : Core) × (steps xs start_core ≡ some c)
      × (settlements n c.log + count n c.pending ≡ issued n c.next_id)
      × (notices c.log ≡ count_if (is_some c.dead))
      × (is_some c.transport.dead ≡ is_some c.dead)
      × (((is_some c.dead ≡ true) × (c.pending ≡ [])) ⊎ ((c.dead ≡ none) × Abandons n c (step x c)))
core_settles xs x n f =
    let (c, q, h) = steps-Handles xs start_core start-Accounts in
    (c, q, h.settled n, h.noticed, h.joined, dead_or_alive x n c h f)
