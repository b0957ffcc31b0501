-- ===== src/Calls/IceGathering/Race.antt =====
-- packages/calls/engine/ice-gathering.ts: when the race settles, and what it leaves behind.
use slothfulchat_web.Prelude.{
  ℕ, ◌≡◌, refl, sym, ◌∙◌, ◌⊎◌, inl, inr, Bool, true, false, not, ◌&&◌, ◌||◌, Option, none, some,
  List, [], ◌∷◌, ◌++◌, arith, Bool-cases, is_some, any,
}
use slothfulchat_web.Calls.IceGathering.{
  Urls, has_turn_server, GatherOptions, Gathering, is_aborted, is_abortable,
  gather_until_enough_ice, srflx, relay, Event, candidates, state_changes, relay_timer_fires,
  srflx_timer_fires, overall_timer_fires, aborts, cleans_up, on_relay, on_srflx, on_state,
  run_cleanups, step, run,
}

-- What makes the candidates enough, told by the events alone.
abbrev pub is_relay : Event → Bool
is_relay (candidates (some relay)) = true
is_relay _ = false

abbrev pub is_srflx : Event → Bool
is_srflx (candidates (some srflx)) = true
is_srflx _ = false

abbrev pub is_complete : Event → Bool
is_complete (state_changes complete) = complete
is_complete _ = false

abbrev pub is_relay_timer : Event → Bool
is_relay_timer relay_timer_fires = true
is_relay_timer _ = false

abbrev pub is_srflx_timer : Event → Bool
is_srflx_timer srflx_timer_fires = true
is_srflx_timer _ = false

abbrev pub is_overall_timer : Event → Bool
is_overall_timer overall_timer_fires = true
is_overall_timer _ = false

abbrev pub is_abort : Event → Bool
is_abort aborts = true
is_abort _ = false

-- Whether an event of the second kind comes after one of the first, which `seen` says has come.
abbrev pub follows : Bool → (Event → Bool) → (Event → Bool) → List Event → Bool
follows seen p q [] = false
follows seen p q (e ∷ es) = (seen && q e) || follows (seen || p e) p q es

abbrev pub enough : Option (List Urls) → GatherOptions → List Event → Bool
enough servers o es =
    is_aborted o.signal
    || (any is_complete es
        || ((is_abortable o.signal && any is_abort es)
            || ((is_some o.overall_timeout_ms && any is_overall_timer es)
                || (follows false is_relay is_relay_timer es
                    || (not (has_turn_server servers)
                        && follows false is_srflx is_srflx_timer es)))))

-- The same of a race that is under way.
abbrev enough_from : Gathering → List Event → Bool
enough_from g es =
    any is_complete es
    || ((g.abort_listener && any is_abort es)
        || ((is_some g.overall_timer && any is_overall_timer es)
            || (follows (is_some g.relay_timer) is_relay is_relay_timer es
                || (g.races_srflx && follows (is_some g.srflx_timer) is_srflx is_srflx_timer es))))

-- A race that has not settled still listens, but for a candidate whose timer runs.
record IsOpen (g : Gathering) : Type 0 where
  state : g.state_listener ≡ true
  relays : g.relay_listener ≡ not (is_some g.relay_timer)
  srflxs : g.races_srflx ≡ true → g.srflx_listener ≡ not (is_some g.srflx_timer)

step-settled : (g : Gathering) (e : Event) → g.settled ≡ true → (step g e).settled ≡ true
unfolding step on_relay on_srflx on_state run_cleanups
step-settled g e h = ground arith

run-settled : (g : Gathering) (es : List Event) → g.settled ≡ true → (run g es).settled ≡ true
unfolding run
run-settled g [] h = h
run-settled g (e ∷ es) h = run-settled (step g e) es (step-settled g e h)

step-IsOpen :
    (g : Gathering) (e : Event)
    → IsOpen g
    → g.settled ≡ false
    → (step g e).settled ≡ false
    → IsOpen (step g e)
unfolding step on_relay on_srflx on_state
step-IsOpen g e h k n = ground arith

settles_now :
    (g : Gathering) (e : Event) (es : List Event)
    → IsOpen g
    → g.settled ≡ false
    → (step g e).settled ≡ true
    → enough_from g (e ∷ es) ≡ true
unfolding step on_relay on_srflx on_state
settles_now g e es h k n = ground arith

settles_later :
    (g : Gathering) (e : Event) (es : List Event)
    → IsOpen g
    → g.settled ≡ false
    → (step g e).settled ≡ false
    → enough_from (step g e) es ≡ enough_from g (e ∷ es)
unfolding step on_relay on_srflx on_state
settles_later g e es h k n = ground arith

run-enough :
    (g : Gathering) (es : List Event)
    → IsOpen g
    → g.settled ≡ false
    → (run g es).settled ≡ enough_from g es
unfolding run
run-enough g [] h k = ground arith
run-enough g (e ∷ es) h k = elim (Bool-cases (step g e).settled) [
  | inl y ↦ run-settled (step g e) es y ∙ sym (settles_now g e es h k y)
  | inr n ↦ run-enough (step g e) es (step-IsOpen g e h k n) n ∙ settles_later g e es h k n
]

-- Whatever happens in whatever order, the race settles exactly if the signal is or gets aborted, if
-- gathering completes, if the optional time-out fires, if the timer that follows a relay candidate
-- fires or, where no TURN server is configured, the timer that follows a server-reflexive one.
pub gather_until_enough_ice-enough :
    (servers : Option (List Urls)) (o : GatherOptions) (es : List Event)
    → (run (gather_until_enough_ice servers o) es).settled ≡ enough servers o es
unfolding gather_until_enough_ice
gather_until_enough_ice-enough servers o es = elim (Bool-cases (is_aborted o.signal)) [
  | inl y ↦ rw (run-settled (gather_until_enough_ice servers o) es y, y) refl
  | inr n ↦
      rw
        (
          run-enough (gather_until_enough_ice servers o) es
              (record { state = refl; relays = refl; srflxs = λ _. refl }) n,
          n,
        )
        refl
]

-- No listener is attached, and the overall time-out is cleared.
pub record IsDetached (g : Gathering) : Type 0 where
  pub relay_listener : g.relay_listener ≡ false
  pub srflx_listener : g.srflx_listener ≡ false
  pub state_listener : g.state_listener ≡ false
  pub abort_listener : g.abort_listener ≡ false
  pub overall_timer : g.overall_timer ≡ none

step-IsDetached : (g : Gathering) (e : Event) → IsDetached g → IsDetached (step g e)
unfolding step on_relay on_srflx on_state run_cleanups
step-IsDetached g e h = ground arith

run-IsDetached : (g : Gathering) (es : List Event) → IsDetached g → IsDetached (run g es)
unfolding run
run-IsDetached g [] h = h
run-IsDetached g (e ∷ es) h = run-IsDetached (step g e) es (step-IsDetached g e h)

cleans_up-IsDetached : (g : Gathering) → g.settled ≡ true → IsDetached (step g cleans_up)
unfolding step run_cleanups
cleans_up-IsDetached g h = ground arith

run-append : (g : Gathering) (xs ys : List Event) → run g (xs ++ ys) ≡ run (run g xs) ys
unfolding run
run-append g [] ys = refl
run-append g (x ∷ xs) ys = run-append (step g x) xs ys

-- A timer is the one of before, or runs no more.
abbrev pub Fades : Option ℕ → Option ℕ → Type 0
Fades before now = (now ≡ none) ⊎ (now ≡ before)

Fades-trans : {a b c : Option ℕ} → Fades a b → Fades b c → Fades a c
Fades-trans h (inl x) = inl x
Fades-trans (inl y) (inr x) = inl (x ∙ y)
Fades-trans (inr y) (inr x) = inr (x ∙ y)

abbrev pub TimersFade : Gathering → Gathering → Type 0
TimersFade g h = Fades g.relay_timer h.relay_timer × Fades g.srflx_timer h.srflx_timer

step-TimersFade : (g : Gathering) (e : Event) → IsDetached g → TimersFade g (step g e)
unfolding step on_relay on_srflx on_state run_cleanups
step-TimersFade g e h = ground arith

run-TimersFade : (g : Gathering) (es : List Event) → IsDetached g → TimersFade g (run g es)
unfolding run
run-TimersFade g [] h = (inr refl, inr refl)
run-TimersFade g (e ∷ es) h =
    let (relay_now, srflx_now) = step-TimersFade g e h in
    let (relay_later, srflx_later) = run-TimersFade (step g e) es (step-IsDetached g e h) in
    (Fades-trans relay_now relay_later, Fades-trans srflx_now srflx_later)

cleans_up-timers : (g : Gathering) → TimersFade g (step g cleans_up)
unfolding step run_cleanups
cleans_up-timers g = ground arith

-- Once enough is gathered and the clean-ups have run, whatever happens before and after: no listener is
-- attached, and the overall time-out, if there was one, does not run. The clean-ups do not stop the timers
-- that follow a relay and a server-reflexive candidate; but neither is started after them, so that each
-- still is the one that ran before them, or runs no more.
pub enough-IsDetached :
    (servers : Option (List Urls)) (o : GatherOptions) (before later : List Event)
    → enough servers o before ≡ true
    → let g = gather_until_enough_ice servers o in
      IsDetached (run g (before ++ cleans_up ∷ later))
      × TimersFade (run g before) (run g (before ++ cleans_up ∷ later))
unfolding run
enough-IsDetached servers o before later h =
    let g = run (gather_until_enough_ice servers o) before in
    let settled = gather_until_enough_ice-enough servers o before ∙ h in
    let detached = cleans_up-IsDetached g settled in
    let (relay_now, srflx_now) = cleans_up-timers g in
    let (relay_later, srflx_later) = run-TimersFade (step g cleans_up) later detached in
    rw (run-append (gather_until_enough_ice servers o) before (cleans_up ∷ later)) (
      run-IsDetached _ later detached,
      (Fades-trans relay_now relay_later, Fades-trans srflx_now srflx_later),
    )
