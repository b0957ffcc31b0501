-- ===== src/Calls/Engine/Tracks.antt =====
-- packages/calls/engine/audio-call.ts: which tracks the log stops, and which the engine still has.
use slothfulchat_web.Prelude.{ℕ, Bool, false, ◌||◌, List, [], ◌∷◌, ◌==◌, any}
use slothfulchat_web.Calls.Engine.State.{Track, Effect, stop_tracks}

abbrev pub has_track : ℕ → List Track → Bool
has_track i ts = any (λ t. t.id == i) ts

-- Whether the log stops the track.
abbrev pub is_stopped : ℕ → List Effect → Bool
is_stopped i [] = false
is_stopped i (stop_tracks ts ∷ l) = has_track i ts || is_stopped i l
is_stopped i (_ ∷ l) = is_stopped i l
