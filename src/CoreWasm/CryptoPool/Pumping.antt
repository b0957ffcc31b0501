-- ===== src/CoreWasm/CryptoPool/Pumping.antt =====
-- packages/core-wasm/src/worker.ts: what `pump` and the settling of a job do to a `CryptoPool`.
use slothfulchat_web.Prelude.{
  ℕ, ◌+◌, ◌≤◌, ◌≡◌, refl, ◌∙◌, inl, inr, true, not, ◌||◌, none, some, List, [], ◌∷◌, arith,
  Bool-cases, is_some, Option-cases, length,
}
use slothfulchat_web.CoreWasm.CryptoPool.{
  CryptoJob, CryptoReply, CryptoPool, Browser, arm, unpostable, pump_queue, pump, settle_job,
}
use slothfulchat_web.CoreWasm.CryptoPool.Valid.{
  settlements, occurrences, accounted, IsSound, IsValid,
}

-- What `pump_queue` makes of the queue `js`.
record Pumps (js : List CryptoJob) (c d : CryptoPool) : Type 0 where
  valid : IsValid d
  next_id : d.next_id ≡ c.next_id
  accounts : (n : ℕ) → accounted n d ≡ settlements n c.log + occurrences n js

pump_queue-Pumps :
    (b : Browser) (js : List CryptoJob) (c : CryptoPool)
    → is_some c.worker ≡ true
    → c.spawn_failures ≤ 3
    → c.active ≡ none
    → c.deadlines ≡ []
    → length js ≤ 8
    → Pumps js c (pump_queue b js c)
unfolding pump_queue
pump_queue-Pumps b [] c w f a d l = record {
  valid = record {
    sound = record {
      dead = ground arith;
      alive = ground arith;
      room = ground arith;
      armed = ground arith;
    };
    slot = λ x. refl;
  };
  next_id = refl;
  accounts = λ n. ground arith;
}
pump_queue-Pumps b (j ∷ js) c w f a d l = elim (Option-cases (b.post_error j.id)) [
  | inl q ↦
      rw (q, pump_queue)
        (record {
          valid = record {
            sound = record {
              dead = ground arith;
              alive = ground arith;
              room = omega (arith, l);
              armed = ground arith;
            };
            slot = ground arith;
          };
          next_id = refl;
          accounts = λ n. omega arith;
        })
  | inr (e, q) ↦
      let u = unpostable j e (arm j c) in
      let k = pump_queue-Pumps b js u w f refl (ground arith) (omega (arith, l)) in
      rw (q, pump_queue)
        (record {
          valid = k.valid;
          next_id = k.next_id;
          accounts = λ n. omega (arith, k.accounts n);
        })
]

-- What `pump` does to a pool, slot free or not.
pub record Keeps (c d : CryptoPool) : Type 0 where
  pub valid : IsValid d
  pub next_id : d.next_id ≡ c.next_id
  pub accounts : (n : ℕ) → accounted n d ≡ accounted n c

free_accounts :
    (n : ℕ) (c : CryptoPool)
    → c.active ≡ none
    → settlements n c.log + occurrences n c.queue ≡ accounted n c
free_accounts n c a = ground arith

pub pump-Keeps : (b : Browser) (c : CryptoPool) → IsSound c → Keeps c (pump b c)
unfolding pump
pump-Keeps b c h = elim (Bool-cases (is_some c.active || not (is_some c.worker))) [
  | inl y ↦ rw y (record {
    valid = record { sound = h; slot = λ a. ground arith };
    next_id = refl;
    accounts = λ n. refl;
  })
  | inr q ↦
      let k =
        pump_queue-Pumps b c.queue c (ground arith) (h.alive (ground arith)) (ground arith)
          (ground arith) h.room in
      rw q (record {
        valid = k.valid;
        next_id = k.next_id;
        accounts = λ n. k.accounts n ∙ free_accounts n c (ground arith);
      })
]

pub settle_job-IsSound :
    (m : CryptoReply) (j : CryptoJob) (c : CryptoPool)
    → c.active ≡ some j
    → IsSound c
    → IsSound (settle_job m j c)
unfolding settle_job
settle_job-IsSound m j c a h = ground arith

pub settle_job-accounts :
    (m : CryptoReply) (j : CryptoJob) (c : CryptoPool)
    → c.active ≡ some j
    → (n : ℕ) → accounted n (settle_job m j c) ≡ accounted n c
unfolding settle_job
settle_job-accounts m j c a n = ground arith
