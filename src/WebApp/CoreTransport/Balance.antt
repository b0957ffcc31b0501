-- ===== src/WebApp/CoreTransport/Balance.antt =====
-- packages/web-app/src/runtime.ts, `getCore`: no answer of the core is lost on its way to the frontend.
use slothfulchat_web.Prelude.{
  ℕ, ◌+◌, ◌≡◌, refl, inl, inr, Bool, Option, none, some, List, [], ◌∷◌, ◌++◌, arith, ◌==◌,
  Bool-cases, if-keeps, any, member, count_if, Text,
}
use slothfulchat_web.WebApp.TempPaths.{temp_removal_path}
use slothfulchat_web.WebApp.CoreTransport.{
  Method, export_backup, import_backup, get_backup, add_account, migrate_account, other, Request,
  Response, Effect, sent, fs_failed, fs_flush, fs_remove, delivered, check_migration,
  restore_warning, Held, at_baseline, at_flush, Transport, put, stage, snapshot, tracked, send,
  staged_at, remove_path, remove_staged, forget, hold, check_opened, opened, answer_import,
  answer_staged, answered, on_message, at_number, in_flush, move_first, on_baseline, answer_of,
  take_flushed, warn, release, on_flushed, connected,
}

pub data Happening : Type 0 where
  asked : Request → Happening
  responded : Response → Happening
  baseline_read : ℕ → ℕ → Happening
  flushed : ℕ → Option ℕ → Happening

unfoldable pub happen : Happening → Transport → Transport
happen (asked m) t = send m t
happen (responded r) t = on_message r t
happen (baseline_read n since) t = on_baseline n since t
happen (flushed n failed) t = on_flushed n failed t

unfoldable pub happen_all : List Happening → Transport → Transport
happen_all [] t = t
happen_all (h ∷ hs) t = happen_all hs (happen h t)

-- How many of the responses that `p` holds of arrived, were delivered, and are held.
module _ (p : Response → Bool) where
  abbrev pub arrived : List Happening → ℕ
  arrived [] = 0
  arrived (asked m ∷ hs) = arrived hs
  arrived (responded r ∷ hs) = count_if (p r) + arrived hs
  arrived (baseline_read n since ∷ hs) = arrived hs
  arrived (flushed n failed ∷ hs) = arrived hs

  abbrev pub passed_on : List Effect → ℕ
  passed_on [] = 0
  passed_on (delivered r ∷ es) = count_if (p r) + passed_on es
  passed_on (sent m ∷ es) = passed_on es
  passed_on (fs_failed n ∷ es) = passed_on es
  passed_on (fs_flush n ∷ es) = passed_on es
  passed_on (fs_remove path ∷ es) = passed_on es
  passed_on (check_migration n ∷ es) = passed_on es
  passed_on (restore_warning n ∷ es) = passed_on es

  abbrev pub waiting : List Held → ℕ
  waiting [] = 0
  waiting (h ∷ hs) = count_if (p (answer_of h)) + waiting hs

  abbrev weight : Transport → ℕ
  weight t = passed_on t.effects + waiting t.held

  waiting-append : (xs ys : List Held) → waiting (xs ++ ys) ≡ waiting xs + waiting ys
  waiting-append [] ys = omega arith
  waiting-append (x ∷ xs) ys = omega (arith, waiting-append xs ys)

  -- Effects other than a delivery.
  stage-weight : (n : ℕ) (s : Option Text) (t : Transport) → weight (stage n s t) ≡ weight t
  stage-weight n none t = refl
  stage-weight n (some path) t = refl

  tracked-weight :
      (method : Method) (id : Option ℕ) (second : Option Text) (t : Transport)
      → weight (tracked method id second t) ≡ weight t
  tracked-weight method none second t = refl
  tracked-weight import_backup (some n) second t = stage-weight n second (snapshot n t)
  tracked-weight get_backup (some n) second t = refl
  tracked-weight add_account (some n) second t = refl
  tracked-weight migrate_account (some n) second t = refl
  tracked-weight export_backup (some n) second t = refl
  tracked-weight other (some n) second t = refl

  path-weight : (path : Option Text) (t : Transport) → weight (remove_path path t) ≡ weight t
  path-weight none t = refl
  path-weight (some path) t = refl

  staged-weight :
      (n : ℕ) (staged : Option Text) (t : Transport) → weight (remove_staged n staged t) ≡ weight t
  staged-weight n none t = refl
  staged-weight n (some s) t = path-weight (temp_removal_path (some s)) _

  checked-weight : (account : Option ℕ) (t : Transport) → weight (check_opened account t) ≡ weight t
  checked-weight none t = refl
  checked-weight (some account) t = refl

  opened-weight :
      (n : ℕ) (r : Response) (t : Transport) → weight (opened n r t) ≡ count_if (p r) + weight t
  opened-weight n r t = elim (Bool-cases (member n t.pending_opens)) [
    | inl y ↦ simp y (
        omega
          (arith, checked-weight r.result (record t { pending_opens = forget n t.pending_opens })))
    | inr z ↦ simp z (omega arith)
  ]

  hold-weight :
      (n : ℕ) (r : Response) (t : Transport) → weight (hold n r t) ≡ count_if (p r) + weight t
  hold-weight n r t = omega (arith, waiting-append t.held (at_baseline n r ∷ []))

  staged_answer-weight :
      (n : ℕ) (r : Response) (t : Transport)
      → weight (answer_staged n r t) ≡ count_if (p r) + weight t
  staged_answer-weight n r t =
      let P : Transport → Type 0 = λ u. weight u ≡ count_if (p r) + weight t in
      if-keeps P (member n t.pending_imports) (answer_import n r t) (opened n r t)
        (if-keeps P r.error (opened n r (record t { pending_imports = forget n t.pending_imports }))
          (hold n r t)
          (opened-weight n r (record t { pending_imports = forget n t.pending_imports }))
          (hold-weight n r t))
        (opened-weight n r t)

  answered-weight :
      (id : Option ℕ) (r : Response) (t : Transport)
      → weight (answered id r t) ≡ count_if (p r) + weight t
  answered-weight none r t = omega arith
  answered-weight (some n) r t =
      let staged = staged_at n t.staged_imports in
      omega (arith, staged_answer-weight n r (remove_staged n staged t), staged-weight n staged t)

  moved-waiting : (n : ℕ) (hs : List Held) → waiting (move_first n hs) ≡ waiting hs
  unfolding move_first
  moved-waiting n [] = refl
  moved-waiting n (at_baseline m r ∷ hs) = ground (arith, moved-waiting n hs)
  moved-waiting n (at_flush m r ∷ hs) = omega (arith, moved-waiting n hs)

  abbrev waiting_one : Option Held → ℕ
  waiting_one none = 0
  waiting_one (some h) = count_if (p (answer_of h))

  taken-waiting :
      (n : ℕ) (hs : List Held)
      → waiting_one (take_flushed n hs).0 + waiting (take_flushed n hs).1 ≡ waiting hs
  unfolding take_flushed
  taken-waiting n [] = refl
  taken-waiting n (h ∷ hs) = elim (Bool-cases (in_flush n h)) [
    | inl y ↦ rw y refl
    | inr z ↦ rw z (omega (arith, taken-waiting n hs))
  ]

  warn-weight : (failed : Option ℕ) (t : Transport) → weight (warn failed t) ≡ weight t
  warn-weight none t = refl
  warn-weight (some failed) t =
      if-keeps (λ u. weight u ≡ weight t) (failed == 0) t (put (restore_warning failed) t) refl refl

  release-weight :
      (h : Option Held) (failed : Option ℕ) (t : Transport)
      → weight (release h failed t) ≡ waiting_one h + weight t
  release-weight none failed t = omega arith
  release-weight (some h) failed t = omega (arith, warn-weight failed t)

  happen-weight :
      (h : Happening) (t : Transport) → weight (happen h t) ≡ arrived (h ∷ []) + weight t
  unfolding happen send on_message on_baseline on_flushed
  happen-weight (asked m) t = omega (arith, tracked-weight m.method m.id m.second t)
  happen-weight (responded r) t = omega (arith, answered-weight r.id r t)
  happen-weight (baseline_read n since) t =
      if-keeps (λ u. weight u ≡ 0 + weight t) (any (at_number n) t.held)
        (record t { held = move_first n t.held; effects = fs_flush since ∷ t.effects }) t
        (omega (arith, moved-waiting n t.held)) (omega arith)
  happen-weight (flushed n failed) t = omega (
    arith,
    taken-waiting n t.held,
    release-weight (take_flushed n t.held).0 failed (record t { held = (take_flushed n t.held).1 }),
  )

  arrived-cons :
      (h : Happening) (hs : List Happening) → arrived (h ∷ hs) ≡ arrived (h ∷ []) + arrived hs
  arrived-cons (asked m) hs = omega arith
  arrived-cons (responded r) hs = omega arith
  arrived-cons (baseline_read n since) hs = omega arith
  arrived-cons (flushed n failed) hs = omega arith

  happen_all-weight :
      (hs : List Happening) (t : Transport) → weight (happen_all hs t) ≡ arrived hs + weight t
  unfolding happen_all
  happen_all-weight [] t = omega arith
  happen_all-weight (h ∷ hs) t =
      omega (arith, arrived-cons h hs, happen-weight h t, happen_all-weight hs (happen h t))

  -- However requests, answers of the core and of its file system follow each other: of the answers of any
  -- kind, those that arrived are those that the frontend got and those that wait for a flush, each as often.
  pub answers_balance :
      (hs : List Happening)
      → let t = happen_all hs connected in arrived hs ≡ passed_on t.effects + waiting t.held
  answers_balance hs = omega (arith, happen_all-weight hs connected)
