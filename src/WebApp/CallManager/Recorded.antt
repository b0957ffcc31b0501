-- ===== src/WebApp/CallManager/Recorded.antt =====
-- packages/web-app/src/runtime.ts, the class `CallManager`: the outcome of a call is recorded once.
use slothfulchat_web.Calls.CallState.{CallDirection}
use slothfulchat_web.Prelude.{
  ℕ, ◌+◌, ◌≤◌, ◌≡◌, refl, inl, inr, true, false, Option, none, some, List, [], ◌∷◌, arith, ltb,
  ◌==◌, ==_iff, Bool-cases, if-keeps, count_if, count,
}
use slothfulchat_web.Calls.CallOutcome.{CallResult, connected, error}
use slothfulchat_web.WebApp.CallManager.{
  Slot, Effect, ring_stopped, outcome, popup_closed, Manager, tell, mark, is_call, message_id,
  report, if_unclear, if_local, ask, classify, set_reported, report_call_outcome, close_popup,
  teardown, begin,
}

-- How often the outcome of a slot was told.
abbrev pub tells : ℕ → Effect → ℕ → ℕ
tells n (outcome m result) before = count_if (m == n) + before
tells n _ before = before

abbrev pub told : ℕ → List Effect → ℕ
told n [] = 0
told n (e ∷ es) = tells n e (told n es)

-- Of a slot: its outcome is told, or asked for, at most once and only if it is marked; only a slot that was
-- made is marked or current.
pub record Counts (owed marked made current : ℕ) : Type 0 where
  pub once : owed ≤ marked
  pub known : marked ≤ made
  pub present : current ≤ made

module _ (n : ℕ) where
  abbrev pub owed : Manager → ℕ
  owed t = told n t.effects + count n t.asking

  abbrev pub marked : Manager → ℕ
  marked t = count_if (t.slot n).outcome_reported

  abbrev pub IsRecorded : Manager → Type 0
  IsRecorded t = Counts (owed t) (marked t) (count_if (ltb n t.made)) (count_if (is_call n t.call))

  mark-marked :
      (m : ℕ) (f : Slot → Slot) (t : Manager)
      → (f (t.slot m)).outcome_reported ≡ (t.slot m).outcome_reported
      → marked (mark m f t) ≡ marked t
  mark-marked m f t e = elim (Bool-cases (n == m)) [
    | inl y ↦ let same : n ≡ m = (==_iff n m).0 y in ground (arith, e)
    | inr z ↦ rw z refl
  ]

  pub mark-IsRecorded :
      (m : ℕ) (f : Slot → Slot) (t : Manager)
      → (f (t.slot m)).outcome_reported ≡ (t.slot m).outcome_reported
      → IsRecorded t
      → IsRecorded (mark m f t)
  mark-IsRecorded m f t e h =
      let k = mark-marked m f t e in
      record { once = omega arith; known = omega arith; present = h.present }

  pub begin-IsRecorded :
      (s : Slot) (t : Manager)
      → s.outcome_reported ≡ false
      → t.call ≡ none
      → IsRecorded t
      → IsRecorded (begin s t)
  begin-IsRecorded s t e none_yet h = ground (arith, h.once, h.known, h.present)

  -- A slot's outcome is told or asked for, and nothing else that counts changes.
  pub record Adds (m : ℕ) (t u : Manager) : Type 0 where
    pub owes : owed u ≡ count_if (m == n) + owed t
    pub slots : marked u ≡ marked t
    pub makes : u.made ≡ t.made
    pub calls : u.call ≡ t.call

  report-Adds : (m : ℕ) (result : CallResult) (t : Manager) → Adds m t (report m result t)
  report-Adds m result t = record { owes = omega arith; slots = refl; makes = refl; calls = refl }

  ask-Adds :
      (m : ℕ) (id : Option ℕ) (direction : CallDirection) (t : Manager)
      → Adds m t (ask m id direction t)
  ask-Adds m none direction t = report-Adds m (if_unclear direction) t
  ask-Adds m (some msg) direction t = record {
    owes = omega arith;
    slots = refl;
    makes = refl;
    calls = refl;
  }

  pub classify-Adds : (m : ℕ) (s : Slot) (t : Manager) → Adds m t (classify m s t)
  classify-Adds m s t = if-keeps (Adds m t) s.connected_once _ _ (report-Adds m connected t) (
      if-keeps (Adds m t) s.errored _ _ (report-Adds m error t) (
        if-keeps (Adds m t) s.locally_ended _ _ (report-Adds m (if_local s.direction) t)
          (ask-Adds m (message_id s) s.direction t)))

  -- What reporting the outcome of a slot leaves.
  pub record Reports (m : ℕ) (t u : Manager) : Type 0 where
    pub once : owed t ≤ marked t → owed u ≤ marked u
    pub marks : (b : ℕ) → marked t ≤ b → count_if (n == m) ≤ b → marked u ≤ b
    pub makes : u.made ≡ t.made
    pub calls : u.call ≡ t.call

  marked-reported :
      (m : ℕ) (t : Manager)
      → (t.slot m).outcome_reported ≡ false
      → marked (mark m set_reported t) ≡ marked t + count_if (n == m)
  marked-reported m t z = elim (Bool-cases (n == m)) [
    | inl y ↦ let same : n ≡ m = (==_iff n m).0 y in ground (arith, z)
    | inr w ↦ rw w (omega arith)
  ]

  pub marked-bounded :
      (m b : ℕ) (t : Manager)
      → marked t ≤ b
      → count_if (n == m) ≤ b
      → marked (mark m set_reported t) ≤ b
  marked-bounded m b t h k = elim (Bool-cases (n == m)) [
    | inl y ↦ let one : 1 ≤ b = rw y at k in rw y one
    | inr w ↦ rw w h
  ]

  turned : (m : ℕ) → count_if (m == n) ≡ count_if (n == m)
  turned m = ground arith

  pub report-Reports : (m : ℕ) (t : Manager) → Reports m t (report_call_outcome m t)
  unfolding report_call_outcome
  report-Reports m t = elim (Bool-cases (t.slot m).outcome_reported) [
    | inl y ↦ simp y (record { once = λ h. h; marks = λ b h k. h; makes = refl; calls = refl })
    | inr z ↦
        let a = classify-Adds m (t.slot m) (mark m set_reported t) in
        let k = marked-reported m t z in
        let w = turned m in
        let o = a.owes in
        let l = a.slots in
        simp z (record {
          once = λ h. omega arith;
          marks = λ b h c. rw l (marked-bounded m b t h c);
          makes = a.makes;
          calls = a.calls;
        })
  ]

  report-IsRecorded :
      (m : ℕ) (t : Manager)
      → count_if (n == m) ≤ count_if (ltb n t.made)
      → IsRecorded t
      → IsRecorded (report_call_outcome m t)
  report-IsRecorded m t k h =
      let r = report-Reports m t in
      let o = r.once h.once in
      let l = r.marks (count_if (ltb n t.made)) h.known k in
      rw r.makes (rw r.calls (record { once = o; known = l; present = h.present }))

  pub current-made :
      (m : ℕ) (t : Manager)
      → is_call m t.call ≡ true
      → IsRecorded t
      → count_if (n == m) ≤ count_if (ltb n t.made)
  current-made m t y h = elim (Bool-cases (n == m)) [
    | inl z ↦
        let same : n ≡ m = (==_iff n m).0 z in
        let current : is_call n t.call ≡ true = rw same y in rw z (rw current at h.present)
    | inr w ↦ rw w (omega arith)
  ]

  close_popup-IsRecorded : (m : ℕ) (t : Manager) → IsRecorded t → IsRecorded (close_popup m t)
  close_popup-IsRecorded m t h =
      if-keeps IsRecorded (t.slot m).has_popup _ _
        (mark-IsRecorded m (λ s. record s { has_popup = false }) (tell (popup_closed m) t) refl h) h

  pub teardown-IsRecorded : (m : ℕ) (t : Manager) → IsRecorded t → IsRecorded (teardown m t)
  unfolding teardown
  teardown-IsRecorded m t h = elim (Bool-cases (is_call m t.call)) [
    | inl y ↦
        let k = current-made m t y h in
        let u = tell ring_stopped (record t { call = none }) in
        simp y (
          close_popup-IsRecorded m (report_call_outcome m u) (
            report-IsRecorded m u k
              (record { once = h.once; known = h.known; present = omega arith })))
    | inr z ↦ simp z h
  ]
