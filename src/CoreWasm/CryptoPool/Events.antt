-- ===== src/CoreWasm/CryptoPool/Events.antt =====
-- packages/core-wasm/src/worker.ts: every event of a `CryptoPool` is handled, and what it leaves.
use Prim.Native.String.{String}
use slothfulchat_web.Prelude.{
  ℕ, suc, ◌+◌, ◌≤◌, ◌<◌, ◌≡◌, refl, ◌∙◌, inl, inr, Bool, true, false, ◌&&◌, Option, none, some,
  List, [], ◌∷◌, ◌++◌, arith, ltb, ◌==◌, Bool-cases, is_some, length, length-append, find, count_if,
}
use slothfulchat_web.CoreWasm.CryptoPool.{
  run_refused, CryptoJob, CryptoReply, CryptoPool, Browser, note, without, perish, pump, settle_job,
  answers, after_reply, on_result, on_ready, on_message, push, run,
}
use slothfulchat_web.CoreWasm.CryptoPool.Steps.{
  PoolEvent, runs, replies, worker_fails, reply_is_undeserializable, deadline_passes, on_deadline,
  step,
}
use slothfulchat_web.CoreWasm.CryptoPool.Valid.{
  occurrences, accounted, running, IsSound, IsValid, Disarmable, Dies, perish-Dies,
  IsSound-Disarmable,
}
use slothfulchat_web.CoreWasm.CryptoPool.Pumping.{
  Keeps, pump-Keeps, settle_job-IsSound, settle_job-accounts,
}

-- One event: it is handled, and what it leaves is sound.
abbrev pub issued : ℕ → ℕ → ℕ
issued n next = count_if (ltb 0 n && ltb n next)

pub record Advances (c d : CryptoPool) : Type 0 where
  pub valid : IsValid d
  pub counts : 1 ≤ c.next_id → 1 ≤ d.next_id
  pub accounts :
      1 ≤ c.next_id
      → (n : ℕ) → accounted n d + issued n c.next_id ≡ accounted n c + issued n d.next_id

abbrev pub Handles : CryptoPool → Option CryptoPool → Type 0
Handles c r = (d : CryptoPool) × (r ≡ some d) × Advances c d

Keeps-Advances : {c d : CryptoPool} → Keeps c d → Advances c d
Keeps-Advances k = record {
  valid = k.valid;
  counts = λ h. rw k.next_id h;
  accounts = λ h n. rw (k.next_id, k.accounts n);
}

pub Dies-Handles :
    {c e : CryptoPool} {r : Option CryptoPool}
    → ((n : ℕ) → accounted n e ≡ accounted n c)
    → e.next_id ≡ c.next_id
    → Dies e r
    → Handles c r
Dies-Handles same next (d, q, k, v) = (
  d,
  q,
  Keeps-Advances
      (record { valid = v; next_id = k.next_id ∙ next; accounts = λ n. k.accounts n ∙ same n }),
)

settle_job-next_id :
    (m : CryptoReply) (j : CryptoJob) (c : CryptoPool) → (settle_job m j c).next_id ≡ c.next_id
unfolding settle_job
settle_job-next_id m j c = ground arith

pump-Handles : (b : Browser) (c : CryptoPool) → IsSound c → Handles c (some (pump b c))
pump-Handles b c h = (pump b c, refl, Keeps-Advances (pump-Keeps b c h))

after_reply-Handles :
    (fatal : Bool) (b : Browser) (e : Option String) (c : CryptoPool) {s : CryptoPool}
    → ((n : ℕ) → accounted n s ≡ accounted n c)
    → s.next_id ≡ c.next_id
    → IsSound s
    → Handles c (after_reply fatal b e s)
after_reply-Handles true b e c {s} same next h =
    Dies-Handles same next (perish-Dies b _ s (IsSound-Disarmable s h))
after_reply-Handles false b e c {s} same next h =
    let k = pump-Keeps b s h in
    (
      pump b s,
      refl,
      Keeps-Advances (record {
        valid = k.valid;
        next_id = k.next_id ∙ next;
        accounts = λ n. k.accounts n ∙ same n;
      }),
    )

on_result-Handles :
    (o : Option CryptoJob) (b : Browser) (m : CryptoReply) (c : CryptoPool)
    → c.active ≡ o
    → IsSound c
    → Handles c (on_result o b m c)
on_result-Handles none b m c a h = pump-Handles b c h
on_result-Handles (some j) b m c a h = elim (Bool-cases (answers m j)) [
  | inl y ↦ simp y (
      after_reply-Handles m.is_fatal b m.error c (settle_job-accounts m j c a)
        (settle_job-next_id m j c) (settle_job-IsSound m j c a h))
  | inr n ↦ simp n (pump-Handles b c h)
]

sound_dies : (b : Browser) (m : String) (c : CryptoPool) → IsSound c → Handles c (perish b m c)
sound_dies b m c h = Dies-Handles (λ n. refl) refl (perish-Dies b m c (IsSound-Disarmable c h))

on_ready-Handles :
    (e : Option String) (b : Browser) (c : CryptoPool) → IsValid c → Handles c (on_ready e b c)
on_ready-Handles none b c h = (
  _,
  refl,
  Keeps-Advances (record {
    valid = record {
      sound = record {
        dead = h.sound.dead;
        alive = h.sound.alive;
        room = h.sound.room;
        armed = h.sound.armed;
      };
      slot = h.slot;
    };
    next_id = refl;
    accounts = λ n. refl;
  }),
)
on_ready-Handles (some e) b c h = sound_dies b e c h.sound

on_message-Handles :
    (b : Browser) (m : CryptoReply) (c : CryptoPool) → IsValid c → Handles c (on_message b m c)
unfolding on_message
on_message-Handles b m c h = elim (Bool-cases m.is_ready) [
  | inl y ↦ simp y (on_ready-Handles m.error b c h)
  | inr n ↦ simp n (on_result-Handles c.active b m c refl h.sound)
]

occurrences-append :
    (n : ℕ) (js ks : List CryptoJob)
    → occurrences n (js ++ ks) ≡ occurrences n js + occurrences n ks
occurrences-append n [] ks = omega arith
occurrences-append n (j ∷ js) ks = omega (arith, occurrences-append n js ks)

push-IsSound :
    (op : String) (bytes : ℕ) (c : CryptoPool)
    → is_some c.worker ≡ true
    → length c.queue < 8
    → IsSound c
    → IsSound (push op bytes c)
push-IsSound op bytes c w l h = record {
  dead = ground arith;
  alive = h.alive;
  room = grind (arith, length-append);
  armed = h.armed;
}

push-accounts :
    (op : String) (bytes : ℕ) (c : CryptoPool) (n : ℕ)
    → accounted n (push op bytes c) ≡ accounted n c + count_if (c.next_id == n)
push-accounts op bytes c n = grind (arith, occurrences-append)

issued-suc : (n k : ℕ) → 1 ≤ k → issued n (suc k) ≡ issued n k + count_if (k == n)
issued-suc n k h = ground arith

push-Advances :
    (b : Browser) (op : String) (bytes : ℕ) (c : CryptoPool)
    → IsSound (push op bytes c)
    → Advances c (pump b (push op bytes c))
push-Advances b op bytes c h =
    let k = pump-Keeps b (push op bytes c) h in
    record {
      valid = k.valid;
      counts = λ p. rw k.next_id (omega arith);
      accounts = λ p n.
          rw (k.next_id, k.accounts n, push-accounts op bytes c n, issued-suc n c.next_id p)
            (omega arith);
    }

note-Advances : (m : String) (c : CryptoPool) → IsValid c → Advances c (note (run_refused m) c)
note-Advances m c h = Keeps-Advances (record {
  valid = record {
    sound = record {
      dead = h.sound.dead;
      alive = h.sound.alive;
      room = h.sound.room;
      armed = h.sound.armed;
    };
    slot = h.slot;
  };
  next_id = refl;
  accounts = λ n. omega arith;
})

run-Advances :
    (b : Browser) (op : String) (bytes : ℕ) (c : CryptoPool)
    → IsValid c
    → Advances c (run b op bytes c)
unfolding run
run-Advances b op bytes c h = elim (Bool-cases (is_some c.worker)) [
  | inr n ↦ simp n (note-Advances _ c h)
  | inl y ↦ elim (Bool-cases (ltb (length c.queue) 8)) [
    | inl l ↦
        simp (y, l) (push-Advances b op bytes c (push-IsSound op bytes c y (ground arith) h.sound))
    | inr l ↦ simp (y, l) (note-Advances _ c h)
  ]
]

pub deadline-Disarmable :
    (n : ℕ) (c : CryptoPool) {j : CryptoJob}
    → c.deadlines ≡ running c
    → find (λ k. k.id == n) c.deadlines ≡ some j
    → Disarmable (record c { deadlines = without n c.deadlines })
deadline-Disarmable n c a h = ground arith

on_deadline-Handles :
    (o : Option CryptoJob) (b : Browser) (n : ℕ) (c : CryptoPool)
    → find (λ k. k.id == n) c.deadlines ≡ o
    → IsValid c
    → Handles c (on_deadline o b n c)
on_deadline-Handles none b n c q h =
    (c, refl, Keeps-Advances (record { valid = h; next_id = refl; accounts = λ n. refl }))
on_deadline-Handles (some j) b n c q h =
    Dies-Handles (λ n. refl) refl
      (perish-Dies b _ (record c { deadlines = without n c.deadlines })
        (deadline-Disarmable n c h.sound.armed q))

pub step-Handles :
    (b : Browser) (x : PoolEvent) (c : CryptoPool) → IsValid c → Handles c (step b x c)
unfolding step
step-Handles b (runs op bytes) c h = (run b op bytes c, refl, run-Advances b op bytes c h)
step-Handles b (replies m) c h = on_message-Handles b m c h
step-Handles b (worker_fails m) c h = sound_dies b _ c h.sound
step-Handles b reply_is_undeserializable c h = sound_dies b _ c h.sound
step-Handles b (deadline_passes n) c h = on_deadline-Handles _ b n c refl h
