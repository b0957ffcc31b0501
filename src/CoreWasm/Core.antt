-- ===== src/CoreWasm/Core.antt =====
-- packages/core-wasm/src/index.ts: `startCore` and `WasmTransport`, the page's side of the core worker.
-- Promises are known by the ids of their requests, an error by its message; effects are logged, newest
-- first. The map of pending JSON-RPC requests is yerpc's, under a private name: `library_sets` is whatever
-- yerpc does to it, and `none` is a map that is not there under that name.
pub mod Shutdown
pub mod Failure
pub mod Abandoned
use Prim.Native.String.{String, ◌++◌ as str_append}
use slothfulchat_web.Prelude.{
  ℕ, zero, suc, Bool, false, not, Option, none, some, List, [], ◌∷◌, ◌++◌, ◌==◌, if◌then◌else◌,
  is_some, or_else, keep, member,
}

pub data CoreEffect : Type 0 where
  fs_posted fs_resolved : ℕ → CoreEffect
  fs_rejected : ℕ → String → CoreEffect
  -- Requests that are rejected at once.
  fs_refused rpc_refused : String → CoreEffect
  rpc_passed_on : CoreEffect
  rpc_rejected : ℕ → String → CoreEffect
  worker_terminated : CoreEffect
  -- The synthetic `fatal-worker-died` message.
  fatal_notice : String → CoreEffect

pub record FsResponse : Type 0 where
  pub id : ℕ
  pub is_ok : Bool
  pub data_bytes : Option ℕ
  pub exists : Option Bool
  pub failed : Option ℕ
  pub error : Option String

pub record WasmTransport : Type 0 where
  pub dead : Option String
  pub requests : Option (List ℕ)

pub record Core : Type 0 where
  pub transport : WasmTransport
  pub next_id : ℕ
  pub pending : List ℕ
  pub dead : Option String
  pub log : List CoreEffect

abbrev pub log_effect : CoreEffect → Core → Core
log_effect x c = record c { log = x ∷ c.log }

unfoldable pub start_core : Core
start_core = record {
  transport = record { dead = none; requests = some [] };
  next_id = 1;
  pending = [];
  dead = none;
  log = [];
}

abbrev pub reject_rpc : String → List ℕ → List CoreEffect → List CoreEffect
reject_rpc m [] l = l
reject_rpc m (n ∷ ns) l = reject_rpc m ns (rpc_rejected n m ∷ l)

abbrev pub emptied : Option (List ℕ) → Option (List ℕ)
emptied none = none
emptied (some ns) = some []

-- The requests that the transport finds.
abbrev pub kept : WasmTransport → List ℕ
kept w = or_else w.requests []

-- `WasmTransport.fail`: without a map the pending requests are left alone.
unfoldable pub fail_transport : String → Core → Core
fail_transport m c = if is_some c.transport.dead then c else record c {
  transport = record { dead = some m; requests = emptied c.transport.requests };
  log = reject_rpc m (kept c.transport) c.log;
}

abbrev pub request_of : Option String → Core → Core
request_of none c = log_effect rpc_passed_on c
request_of (some m) c = log_effect (rpc_refused m) c

-- `WasmTransport.request`
unfoldable pub request : Core → Core
request c = request_of c.transport.dead c

-- What a pending request does with its response.
abbrev pub settle : FsResponse → Core → Core
settle r c =
    if r.is_ok
    then log_effect (fs_resolved r.id) c
    else log_effect (fs_rejected r.id (or_else r.error "fs request failed")) c

abbrev pub error_response : String → ℕ → FsResponse
error_response m n = record {
  id = n;
  is_ok = false;
  data_bytes = none;
  exists = none;
  failed = none;
  error = some m;
}

abbrev pub settle_all : String → List ℕ → Core → Core
settle_all m [] c = c
settle_all m (n ∷ ns) c = settle_all m ns (settle (error_response m n) c)

-- `fail` behind its guard, up to the event that it dispatches.
unfoldable pub shut : String → Core → Core
shut m c =
    let d = fail_transport m (record c { dead = some m }) in
    let e = settle_all m d.pending d in
    log_effect (fatal_notice m) (log_effect worker_terminated (record e { pending = [] }))

-- `fail` and the listener that its event calls, which is `fail` again; `none` when the fuel does not last.
unfoldable pub fail : ℕ → String → Core → Option Core
fail zero m c = none
fail (suc n) m c = let again = fail n m (shut m c) in if is_some c.dead then some c else again

-- The second round finds the worker dead.
abbrev pub rounds : ℕ
rounds = 2

-- The listener for responses of the file system.
unfoldable pub on_fs_message : FsResponse → Core → Core
on_fs_message r c =
    let d = record c { pending = keep (λ k. not (k == r.id)) c.pending } in
    if member r.id c.pending then settle r d else d

abbrev pub fs_request_of : Option String → Core → Core
fs_request_of (some m) c = log_effect (fs_refused m) c
fs_request_of none c =
    log_effect (fs_posted c.next_id)
      (record c { next_id = suc c.next_id; pending = c.pending ++ c.next_id ∷ [] })

unfoldable pub fs_request : Core → Core
fs_request c = fs_request_of c.dead c

-- What the file system's methods make of a response that came.
unfoldable pub fs_read_bytes : FsResponse → ℕ
fs_read_bytes r = or_else r.data_bytes 0

unfoldable pub fs_exists : FsResponse → Bool
fs_exists r = or_else r.exists false

unfoldable pub fs_failed_writes : FsResponse → ℕ
fs_failed_writes r = or_else r.failed 0

pub data CoreEvent : Type 0 where
  calls_fs calls_rpc : CoreEvent
  fs_message : FsResponse → CoreEvent
  worker_errs : String → CoreEvent
  cannot_clone : CoreEvent
  -- A panic that the worker reported itself.
  worker_died : Option String → CoreEvent
  library_sets : Option (List ℕ) → CoreEvent

unfoldable pub step : CoreEvent → Core → Option Core
step calls_fs c = some (fs_request c)
step calls_rpc c = some (request c)
step (fs_message r) c = some (on_fs_message r c)
step (worker_errs m) c = fail rounds (str_append "core worker error: " m) c
step cannot_clone c = fail rounds "core worker reply was undeserializable" c
step (worker_died m) c = fail rounds (or_else m "core worker died") c
step (library_sets ns) c = some (record c { transport = record c.transport { requests = ns } })

abbrev pub then_steps : Option Core → (Core → Option Core) → Option Core
then_steps none f = none
then_steps (some c) f = f c

unfoldable pub steps : List CoreEvent → Core → Option Core
steps [] c = some c
steps (x ∷ xs) c = then_steps (step x c) (steps xs)
