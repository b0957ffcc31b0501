-- ===== src/Examples/CryptoPool.antt =====
-- packages/core-wasm/src/worker.ts: the theorems on the pool at concrete runs.
use slothfulchat_web.Prelude.{
  ◌+◌, ◌≡◌, refl, ◌⊎◌, Option, none, some, List, [], ◌∷◌, arith, ◌==◌, if◌then◌else◌, find,
}
use slothfulchat_web.CoreWasm.CryptoPool.{
  spawned, posted, deadline_set, CryptoJob, CryptoPool, made, throws, Browser, op_timeout_us, jobs,
  bury, die, spawn, empty_pool, new_pool, pump_queue, pump, run,
}
use slothfulchat_web.CoreWasm.CryptoPool.Steps.{PoolEvent, runs, deadline_passes, step, steps}
use slothfulchat_web.CoreWasm.CryptoPool.Valid.{settlements, occurrences}
use slothfulchat_web.CoreWasm.CryptoPool.Settled.{
  history, pool_returns, jobs_settle_once, Empties, deadline_settles,
}

-- A browser that makes workers, and posts every message but that of job 2.
abbrev browser : Browser
browser = record {
  makes_worker = λ n. made n;
  post_error = λ n. if n == 2 then some "detached" else none;
}

-- A browser without nested workers.
abbrev barren : Browser
barren = record { makes_worker = λ n. throws "unsupported"; post_error = λ n. none }

abbrev busy : List (Browser × PoolEvent)
busy = (browser, runs "encrypt" 1000000) ∷ (browser, runs "sign" 10) ∷ []

abbrev busy_pool : Option CryptoPool
unfolding new_pool steps step run pump pump_queue die spawn bury
busy_pool = history browser busy

abbrev first_job : CryptoJob
first_job = record { id = 1; op = "encrypt"; payload_bytes = 1000000 }

abbrev second_job : CryptoJob
second_job = record { id = 2; op = "sign"; payload_bytes = 10 }

abbrev at_work : CryptoPool
at_work = record empty_pool {
  worker = some 0;
  next_id = 3;
  active = some first_job;
  queue = second_job ∷ [];
  deadlines = first_job ∷ [];
  log = posted 1 ∷ deadline_set 1 19000000 ∷ spawned 0 ∷ [];
}

at_work_test : history browser busy ≡ some at_work
unfolding new_pool steps step run pump pump_queue spawn op_timeout_us
at_work_test = refl

pool_returns_example : (c : CryptoPool) × (history barren busy ≡ some c)
pool_returns_example = pool_returns barren busy

jobs_settle_once_example : settlements 2 at_work.log + occurrences 2 (jobs at_work) ≡ 1
jobs_settle_once_example = jobs_settle_once browser busy 2 at_work_test (omega arith) (omega arith)

deadline_settles_example :
    (jobs at_work ≡ [])
    ⊎ ((j : CryptoJob) × (at_work.active ≡ some j)
        × (find (λ k. k.id == j.id) at_work.deadlines ≡ some j)
        × Empties at_work (step barren (deadline_passes j.id) at_work))
deadline_settles_example = deadline_settles browser barren busy at_work_test
