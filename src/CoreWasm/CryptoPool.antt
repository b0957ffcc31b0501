-- ===== src/CoreWasm/CryptoPool.antt =====
-- packages/core-wasm/src/worker.ts: `CryptoPool`, the worker that runs offloaded PGP operations one at a
-- time. A payload counts by its bytes, a reply and a worker are numbers; what the pool does is logged,
-- newest first. Times are in microseconds, so that 4 s per MB is a whole number for each byte.
pub mod Steps
pub mod Valid
pub mod Pumping
pub mod Events
pub mod Settled
use Prim.Native.Nat.{◌*◌}
use Prim.Native.String.{String, ◌++◌ as str_append}
use text.Mathlib.Text.{◌==◌ as str_eq}
use slothfulchat_web.Prelude.{
  ℕ, zero, suc, ◌+◌, Bool, true, false, not, ◌||◌, Option, none, some, List, [], ◌∷◌, ◌++◌, ltb,
  ◌==◌, if◌then◌else◌, is_some, or_else, length, keep,
}

pub data PoolEffect : Type 0 where
  spawned terminated : ℕ → PoolEffect
  -- A promise of `run`, resolved or rejected, by the id of its job.
  job_resolved : ℕ → ℕ → PoolEffect
  job_rejected : ℕ → String → PoolEffect
  posted : ℕ → PoolEffect
  deadline_set : ℕ → ℕ → PoolEffect
  deadline_cleared : ℕ → PoolEffect
  -- `run` without a job.
  run_refused : String → PoolEffect

pub record CryptoJob : Type 0 where
  pub id : ℕ
  pub op : String
  pub payload_bytes : ℕ

pub record CryptoReply : Type 0 where
  pub is_ready : Bool
  pub id : Option ℕ
  pub is_ok : Bool
  pub reply : Option ℕ
  pub error : Option String
  pub is_fatal : Bool

pub record CryptoPool : Type 0 where
  pub worker : Option ℕ
  pub next_id : ℕ
  pub active : Option CryptoJob
  pub queue : List CryptoJob
  pub is_ready : Bool
  pub spawn_failures : ℕ
  pub offloaded : List (String × ℕ)
  -- The jobs whose deadline is armed.
  pub deadlines : List CryptoJob
  pub log : List PoolEffect

-- `new Worker(...)`
pub data Attempt : Type 0 where
  made : ℕ → Attempt
  throws : String → Attempt

-- What the browser answers while one event is handled: the worker made at an attempt, by the failures
-- before it, and what posting the message of a job throws, if anything.
pub record Browser : Type 0 where
  pub makes_worker : ℕ → Attempt
  pub post_error : ℕ → Option String

abbrev pub max_queued : ℕ
max_queued = 8

abbrev pub max_spawn_failures : ℕ
max_spawn_failures = 3

unfoldable pub op_timeout_us : ℕ → ℕ
op_timeout_us bytes = 15000000 + 4 * bytes

abbrev pub note : PoolEffect → CryptoPool → CryptoPool
note x c = record c { log = x ∷ c.log }

abbrev pub without : ℕ → List CryptoJob → List CryptoJob
without n js = keep (λ j. not (j.id == n)) js

abbrev pub disarm : ℕ → CryptoPool → CryptoPool
disarm n c = record c { deadlines = without n c.deadlines; log = deadline_cleared n ∷ c.log }

abbrev pub disarm_active : Option CryptoJob → CryptoPool → CryptoPool
disarm_active none c = c
disarm_active (some j) c = disarm j.id c

abbrev pub jobs : CryptoPool → List CryptoJob
jobs c = elim c.active [ none ↦ c.queue | some j ↦ j ∷ c.queue ]

abbrev pub rejections : String → List CryptoJob → List PoolEffect → List PoolEffect
rejections m [] l = l
rejections m (j ∷ js) l = rejections m js (job_rejected j.id m ∷ l)

abbrev pub terminate : Option ℕ → CryptoPool → CryptoPool
terminate none c = c
terminate (some w) c = note (terminated w) c

-- `die` up to its respawn.
unfoldable pub bury : String → CryptoPool → CryptoPool
bury cause c =
    let d = disarm_active c.active c in
    let e = terminate c.worker (record d { log = rejections cause (jobs c) d.log }) in
    record e { active = none; queue = []; worker = none; spawn_failures = suc c.spawn_failures }

abbrev pub adopt_worker : ℕ → CryptoPool → CryptoPool
adopt_worker w c = record c { worker = some w; log = spawned w ∷ c.log }

-- `die`, with the `spawn` at its end; `none` when the fuel does not last.
unfoldable pub die : ℕ → Browser → String → CryptoPool → Option CryptoPool
die zero b cause c = none
die (suc n) b cause c =
    let d = bury cause c in
    let respawned : Option CryptoPool = elim (b.makes_worker d.spawn_failures) [
      | throws e ↦ die n b (str_append "crypto worker spawn failed: " e) d
      | made w ↦ some (adopt_worker w d)
    ] in
    if ltb max_spawn_failures d.spawn_failures then some d else respawned

-- Each round of respawns counts a failure, and the fourth is the last.
abbrev pub respawns : ℕ
respawns = 4

abbrev pub perish : Browser → String → CryptoPool → Option CryptoPool
perish b cause c = die respawns b cause c

abbrev pub attempted : Attempt → Browser → CryptoPool → Option CryptoPool
attempted (throws e) b c = perish b (str_append "crypto worker spawn failed: " e) c
attempted (made w) b c = some (adopt_worker w c)

unfoldable pub spawn : Browser → CryptoPool → Option CryptoPool
spawn b c = attempted (b.makes_worker c.spawn_failures) b c

abbrev pub empty_pool : CryptoPool
empty_pool = record {
  worker = none;
  next_id = 1;
  active = none;
  queue = [];
  is_ready = false;
  spawn_failures = 0;
  offloaded = [];
  deadlines = [];
  log = [];
}

unfoldable pub new_pool : Browser → Option CryptoPool
new_pool b = spawn b empty_pool

-- `crypto op ${job.op}` and what follows it.
abbrev pub about_op : CryptoJob → String → String
about_op j rest = str_append "crypto op " (str_append j.op rest)

-- The job at the head of the queue takes the slot, and is posted.
abbrev pub arm : CryptoJob → CryptoPool → CryptoPool
arm j c = record c {
  active = some j;
  deadlines = j ∷ c.deadlines;
  log = deadline_set j.id (op_timeout_us j.payload_bytes) ∷ c.log;
}

-- It could not be posted: the slot is free again.
abbrev pub unpostable : CryptoJob → String → CryptoPool → CryptoPool
unpostable j e c =
    note (job_rejected j.id (about_op j (str_append " could not be posted: " e)))
      (disarm j.id (record c { active = none }))

-- `pump` with a worker and a free slot, the queue at hand.
unfoldable pub pump_queue : Browser → List CryptoJob → CryptoPool → CryptoPool
pump_queue b [] c = record c { queue = [] }
pump_queue b (j ∷ js) c =
    let armed = arm j c in
    elim (b.post_error j.id) [
      | none ↦ note (posted j.id) (record armed { queue = js })
      | some e ↦ pump_queue b js (unpostable j e armed)
    ]

unfoldable pub pump : Browser → CryptoPool → CryptoPool
pump b c = if is_some c.active || not (is_some c.worker) then c else pump_queue b c.queue c

-- `offloaded.set(op, (offloaded.get(op) ?? 0) + 1)`
unfoldable pub count_op : String → List (String × ℕ) → List (String × ℕ)
count_op op [] = (op, 1) ∷ []
count_op op ((o, n) ∷ rest) =
    let counted = count_op op rest in if str_eq o op then (o, suc n) ∷ rest else (o, n) ∷ counted

-- The running job is settled by its reply.
unfoldable pub settle_job : CryptoReply → CryptoJob → CryptoPool → CryptoPool
settle_job m j c =
    let d = record (disarm j.id c) { active = none } in
    elim (if m.is_ok then m.reply else none) [
      | none ↦ note (job_rejected j.id (or_else m.error (about_op j " failed"))) d
      | some r ↦
          note (job_resolved j.id r)
            (record d { spawn_failures = 0; offloaded = count_op j.op d.offloaded })
    ]

abbrev pub answers : CryptoReply → CryptoJob → Bool
answers m j = elim m.id [ none ↦ false | some n ↦ n == j.id ]

-- After a reply of the running job, which may be the worker's last.
abbrev pub after_reply : Bool → Browser → Option String → CryptoPool → Option CryptoPool
after_reply true b e c = perish b (or_else e "crypto worker trapped") c
after_reply false b e c = some (pump b c)

abbrev pub on_result : Option CryptoJob → Browser → CryptoReply → CryptoPool → Option CryptoPool
on_result none b m c = some (pump b c)
on_result (some j) b m c =
    if answers m j then after_reply m.is_fatal b m.error (settle_job m j c) else some (pump b c)

abbrev pub on_ready : Option String → Browser → CryptoPool → Option CryptoPool
on_ready none b c = some (record c { is_ready = true })
on_ready (some e) b c = perish b e c

-- `worker.onmessage`
unfoldable pub on_message : Browser → CryptoReply → CryptoPool → Option CryptoPool
on_message b m c = if m.is_ready then on_ready m.error b c else on_result c.active b m c

abbrev pub push : String → ℕ → CryptoPool → CryptoPool
push op bytes c = record c {
  queue = c.queue ++ record { id = c.next_id; op = op; payload_bytes = bytes } ∷ [];
  next_id = suc c.next_id;
}

unfoldable pub run : Browser → String → ℕ → CryptoPool → CryptoPool
run b op bytes c =
    if not (is_some c.worker)
    then note (run_refused "crypto pool is dead") c
    else (if ltb (length c.queue) max_queued
        then pump b (record c {
          queue = c.queue ++ record { id = c.next_id; op = op; payload_bytes = bytes } ∷ [];
          next_id = suc c.next_id;
        })
        else note (run_refused "crypto pool queue is full") c)

unfoldable pub stats : CryptoPool → List (String × ℕ)
stats c = c.offloaded
