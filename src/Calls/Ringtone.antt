-- ===== src/Calls/Ringtone.antt =====
-- packages/calls/bridge/ringtone.ts: the ring of an incoming call. The player's audio graph (context,
-- oscillator and gain) is stored or not, and what the player does to the device is an effect.
pub mod Balance
pub mod Silence
use slothfulchat_web.Prelude.{
  ℕ, zero, suc, ◌+◌, Bool, true, false, not, List, [], ◌∷◌, ◌++◌, if◌then◌else◌,
}

pub data Effect : Type 0 where
  create_context close_context : Effect
  -- The gain, on or off.
  gate : Bool → Effect
  vibrate : List ℕ → Effect
  set_pulse_timer set_vibrate_timer : ℕ → Effect
  clear_pulse_timer clear_vibrate_timer : Effect

abbrev ring_on_ms : ℕ
ring_on_ms = 1000

abbrev ring_off_ms : ℕ
ring_off_ms = 1000

abbrev vibrate_repeats_per_arm : ℕ
vibrate_repeats_per_arm = 15

abbrev vibrate_rearm_ms : ℕ
vibrate_rearm_ms = 30000

unfoldable pub vibrate_pattern : ℕ → List ℕ
vibrate_pattern zero = []
vibrate_pattern (suc n) = ring_on_ms ∷ ring_off_ms ∷ vibrate_pattern n

pub record RingtonePlayer : Type 0 where
  pub graph : Bool
  pub pulse_timer : Bool
  pub vibrate_timer : Bool
  pub ringing : Bool
  pub on : Bool

abbrev pub new_player : RingtonePlayer
new_player = record {
  graph = false;
  pulse_timer = false;
  vibrate_timer = false;
  ringing = false;
  on = true;
}

abbrev pub Does : Type 0
Does = RingtonePlayer × List Effect

-- How far Web Audio lets `startTone` get: the context cannot be made, or the context is made and then a
-- node cannot be made, connected or started, or all of it works.
pub data Audio : Type 0 where
  no_context no_nodes works : Audio

-- What throws after the context is made leaves it open, and the player without it. The attempt to resume a
-- suspended context is left out.
unfoldable pub start_tone : Audio → RingtonePlayer → Does
start_tone no_context r = (r, [])
start_tone no_nodes r = (r, create_context ∷ [])
start_tone works r = (
  record r { graph = true; pulse_timer = true },
  create_context ∷ gate true ∷ set_pulse_timer (ring_on_ms + ring_off_ms) ∷ [],
)

unfoldable pub arm : List Effect
arm = vibrate (vibrate_pattern vibrate_repeats_per_arm) ∷ []

unfoldable pub start_vibration : RingtonePlayer → Does
start_vibration r =
    (record r { vibrate_timer = true }, arm ++ set_vibrate_timer vibrate_rearm_ms ∷ [])

unfoldable pub start : Audio → RingtonePlayer → Does
start audio r =
    if r.ringing
    then (r, [])
    else let (toned, did) = start_tone audio (record r { ringing = true }) in
      let (armed, more) = start_vibration toned in (armed, did ++ more)

unfoldable pub toggle_pulse : RingtonePlayer → Does
toggle_pulse r =
    let r' = record r { on = not r.on } in (r', if r'.graph then gate r'.on ∷ [] else [])

abbrev cleared : Bool → Effect → List Effect
cleared b e = if b then e ∷ [] else []

unfoldable pub stop : RingtonePlayer → Does
stop r = (
  new_player,
  cleared r.pulse_timer clear_pulse_timer
      ++ (cleared r.vibrate_timer clear_vibrate_timer
          ++ (vibrate [] ∷ cleared r.graph close_context)),
)

pub data Event : Type 0 where
  starts : Audio → Event
  stops pulse_timer_fires vibrate_timer_fires : Event

unfoldable pub step : RingtonePlayer → Event → Does
step r (starts audio) = start audio r
step r stops = stop r
step r pulse_timer_fires = if r.pulse_timer then toggle_pulse r else (r, [])
step r vibrate_timer_fires = if r.vibrate_timer then (r, arm) else (r, [])

unfoldable pub run : RingtonePlayer → List Event → Does
run r [] = (r, [])
run r (e ∷ es) = let (r', did) = step r e in let (final, rest) = run r' es in (final, did ++ rest)
