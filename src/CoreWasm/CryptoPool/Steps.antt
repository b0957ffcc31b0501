-- ===== src/CoreWasm/CryptoPool/Steps.antt =====
-- packages/core-wasm/src/worker.ts: what happens to a `CryptoPool`, event by event.
use Prim.Native.String.{String, ◌++◌ as str_append}
use slothfulchat_web.Prelude.{ℕ, Option, none, some, List, [], ◌∷◌, ◌==◌, find}
use slothfulchat_web.CoreWasm.CryptoPool.{
  CryptoJob, CryptoReply, CryptoPool, Browser, without, perish, about_op, on_message, run,
}

-- What happens to a pool. A deadline that was cleared does not fire; a reply may come from a worker that
-- the pool has given up.
pub data PoolEvent : Type 0 where
  runs : String → ℕ → PoolEvent
  replies : CryptoReply → PoolEvent
  worker_fails : String → PoolEvent
  reply_is_undeserializable : PoolEvent
  deadline_passes : ℕ → PoolEvent

abbrev pub on_deadline : Option CryptoJob → Browser → ℕ → CryptoPool → Option CryptoPool
on_deadline none b n c = some c
on_deadline (some j) b n c =
    perish b (about_op j " timed out") (record c { deadlines = without n c.deadlines })

unfoldable pub step : Browser → PoolEvent → CryptoPool → Option CryptoPool
step b (runs op bytes) c = some (run b op bytes c)
step b (replies m) c = on_message b m c
step b (worker_fails m) c = perish b (str_append "crypto worker error: " m) c
step b reply_is_undeserializable c = perish b "crypto worker reply was undeserializable" c
step b (deadline_passes n) c = on_deadline (find (λ j. j.id == n) c.deadlines) b n c

abbrev pub then_steps : Option CryptoPool → (CryptoPool → Option CryptoPool) → Option CryptoPool
then_steps none f = none
then_steps (some c) f = f c

unfoldable pub steps : List (Browser × PoolEvent) → CryptoPool → Option CryptoPool
steps [] c = some c
steps ((b, x) ∷ xs) c = then_steps (step b x c) (steps xs)
