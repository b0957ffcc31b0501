-- ===== src/CoreWasm/CryptoPool/Settled.antt =====
-- packages/core-wasm/src/worker.ts: every job of a `CryptoPool` is settled once, and none is stranded.
use Prim.Native.String.{String, ◌++◌ as str_append}
use mathlib.Core.Path.{subst}
use slothfulchat_web.Prelude.{
  ℕ, ◌+◌, ◌≤◌, ◌<◌, ◌≡◌, refl, ◌⊎◌, inl, inr, Option, none, some, List, [], ◌∷◌, arith, ◌==◌,
  Option-cases, find,
}
use slothfulchat_web.CoreWasm.CryptoPool.{
  CryptoJob, CryptoPool, Attempt, made, throws, Browser, without, jobs, adopt_worker, perish,
  attempted, spawn, empty_pool, new_pool,
}
use slothfulchat_web.CoreWasm.CryptoPool.Steps.{
  PoolEvent, deadline_passes, on_deadline, step, then_steps, steps,
}
use slothfulchat_web.CoreWasm.CryptoPool.Valid.{
  settlements, refusals, occurrences, accounted, running, IsValid, Disarmable, perish-Dies,
}
use slothfulchat_web.CoreWasm.CryptoPool.Events.{issued, deadline-Disarmable, step-Handles}

-- A pool and the jobs that it was given, numbered from 1.
record Accounts (c : CryptoPool) : Type 0 where
  valid : IsValid c
  numbered : 1 ≤ c.next_id
  settled : (n : ℕ) → accounted n c ≡ issued n c.next_id

step-Accounts :
    (b : Browser) (x : PoolEvent) (c : CryptoPool)
    → Accounts c
    → (d : CryptoPool) × (step b x c ≡ some d) × Accounts d
step-Accounts b x c h =
    let (d, q, a) = step-Handles b x c h.valid in
    (
      d,
      q,
      record {
        valid = a.valid;
        numbered = a.counts h.numbered;
        settled = λ n. omega (arith, a.accounts h.numbered n, h.settled n);
      },
    )

steps-Accounts :
    (xs : List (Browser × PoolEvent)) (c : CryptoPool)
    → Accounts c
    → (d : CryptoPool) × (steps xs c ≡ some d) × Accounts d
unfolding steps
steps-Accounts [] c h = (c, refl, h)
steps-Accounts ((b, x) ∷ xs) c h =
    let (d, q, g) = step-Accounts b x c h in rw q (steps-Accounts xs d g)

empty-accounts : (n : ℕ) → 0 ≡ issued n 1
empty-accounts n = ground arith

attempted-Accounts :
    (a : Attempt) (b : Browser)
    → (c : CryptoPool) × (attempted a b empty_pool ≡ some c) × Accounts c
attempted-Accounts (made w) b = (
  adopt_worker w empty_pool,
  refl,
  record {
    valid = record {
      sound = record {
        dead = λ x. ground arith;
        alive = λ x. omega arith;
        room = omega arith;
        armed = refl;
      };
      slot = λ x. refl;
    };
    numbered = omega arith;
    settled = λ n. omega (arith, empty-accounts n);
  },
)
attempted-Accounts (throws e) b =
    let (d, r, k, v) =
      perish-Dies b (str_append "crypto worker spawn failed: " e) empty_pool refl in
    (
      d,
      r,
      record {
        valid = v;
        numbered = rw k.next_id (omega arith);
        settled = λ n. rw (k.next_id, k.accounts n) (omega (arith, empty-accounts n));
      },
    )

new_pool-Accounts : (b : Browser) → (c : CryptoPool) × (new_pool b ≡ some c) × Accounts c
unfolding new_pool spawn
new_pool-Accounts b = attempted-Accounts (b.makes_worker 0) b

-- The pool of a page: made, and then driven by events.
abbrev pub history : Browser → List (Browser × PoolEvent) → Option CryptoPool
history b xs = then_steps (new_pool b) (steps xs)

history-Accounts :
    (b : Browser) (xs : List (Browser × PoolEvent))
    → (c : CryptoPool) × (history b xs ≡ some c) × Accounts c
history-Accounts b xs = let (c, q, h) = new_pool-Accounts b in rw q (steps-Accounts xs c h)

-- Making a pool and handling any events comes to an end: four rounds of `die` and `spawn` are always
-- enough, whether or not the browser makes workers.
pub pool_returns :
    (b : Browser) (xs : List (Browser × PoolEvent)) → (c : CryptoPool) × (history b xs ≡ some c)
pool_returns b xs = let (c, q, h) = history-Accounts b xs in (c, q)

reached :
    (b : Browser) (xs : List (Browser × PoolEvent)) {c : CryptoPool}
    → history b xs ≡ some c
    → Accounts c
reached b xs {c} h =
    let (d, q, g) = history-Accounts b xs in let same : d ≡ c = cc in subst Accounts same g

-- However events follow each other, a job that `run` took stands in the pool once and is not settled, or
-- its promise was settled once and the pool has let go of it.
pub jobs_settle_once :
    (b : Browser) (xs : List (Browser × PoolEvent)) {c : CryptoPool} (n : ℕ)
    → history b xs ≡ some c
    → 1 ≤ n
    → n < c.next_id
    → settlements n c.log + occurrences n (jobs c) ≡ 1
jobs_settle_once b xs {c} n h k l = ground (arith, (reached b xs h).settled n)

-- A pool is left without a job, and each that stood in it is rejected.
abbrev pub Empties : CryptoPool → Option CryptoPool → Type 0
Empties c r =
    (d : CryptoPool) × (r ≡ some d)
    × (jobs d ≡ [])
    × ((n : ℕ) → refusals n d.log ≡ refusals n c.log + occurrences n (jobs c))

perish_lem : (b : Browser) (m : String) (c : CryptoPool) → Disarmable c → Empties c (perish b m c)
perish_lem b m c h = let (d, q, k, v) = perish-Dies b m c h in (d, q, ground arith, k.refused)

free-jobs : (c : CryptoPool) → c.active ≡ none → c.queue ≡ [] → jobs c ≡ []
free-jobs c a q = ground arith

armed-find :
    (c : CryptoPool) (j : CryptoJob)
    → c.deadlines ≡ running c
    → c.active ≡ some j
    → find (λ k. k.id == j.id) c.deadlines ≡ some j
armed-find c j a h = ground arith

expire_lem :
    (b : Browser) (n : ℕ) (c : CryptoPool) (j : CryptoJob)
    → Disarmable (record c { deadlines = without n c.deadlines })
    → Empties c (on_deadline (some j) b n c)
expire_lem b n c j h = perish_lem b _ _ h

-- In every pool that is reached nothing waits, or an operation runs whose deadline is armed: when the
-- deadline passes, each job in the pool, the running one and those that wait behind it, is rejected as often
-- as it stands there, and none is left.
pub deadline_settles :
    (b now : Browser) (xs : List (Browser × PoolEvent)) {c : CryptoPool}
    → history b xs ≡ some c
    → (jobs c ≡ [])
      ⊎ ((j : CryptoJob) × (c.active ≡ some j)
          × (find (λ k. k.id == j.id) c.deadlines ≡ some j)
          × Empties c (step now (deadline_passes j.id) c))
unfolding step
deadline_settles b now xs {c} h =
    let v = (reached b xs h).valid in
    elim (Option-cases c.active) [
      | inl n ↦ inl (free-jobs c n (v.slot n))
      | inr (j, a) ↦
          let found = armed-find c j v.sound.armed a in
          let (d, q, empty, refused) =
            expire_lem now j.id c j (deadline-Disarmable j.id c v.sound.armed found) in
          inr (j, a, found, (d, simp found q, empty, refused))
    ]
