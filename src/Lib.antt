-- ===== src/Lib.antt =====
-- Slothfulchat web: calls (packages/calls), the page's and the worker's side of the core
-- (packages/core-wasm), parts of the web application (packages/web-app) and the bridge to
-- TCP (packages/ws-tcp-proxy).
--
-- A call goes through packages/calls/engine/audio-call.ts, the class `AudioCallEngine`. It owns a
-- call-state machine (call-state.ts), makes the raw SDP strings that travel as chat messages
-- (signaling.ts), acquires and releases streams, and switches devices, the camera and the screen
-- share. Beside it stand the device lists of the pickers (devices.ts), the monitor that polls
-- whether the media is relayed (connection-route.ts), the gathering of ICE candidates
-- (ice-gathering.ts), and the analytics bucket of a call that never connected
-- (bridge/call-outcome.ts). A call in a window of its own relays its signaling to the page that
-- opened it: the popup's RPC client posts requests (bridge/popup-signaling.ts), and the host answers
-- them and ends with the popup (bridge/popup-host.ts). An incoming call rings (bridge/ringtone.ts).
-- The bridge of a call (bridge/index.ts) owns its engine and makes the RPC calls that place, answer
-- and end it.
--
-- The core runs in a worker. The page talks to it through packages/core-wasm/src/index.ts, which
-- settles everything when the worker dies; the worker hands PGP operations to a nested worker through
-- the pool of packages/core-wasm/src/worker.ts. Its service worker reads blobs by paths that
-- packages/web-app/src/blob-route.ts allows, and answers with blob-response.ts. The page starts the core
-- once the worker's opfs-probe.mjs finds its files free, wraps its transport and shows its fatal errors
-- (packages/web-app/src/runtime.ts, fatal-report.ts); its call manager keeps the one call that uses the bridge
-- or a popup. What it counts of its use goes from telemetry.ts through
-- the gate of analytics.ts, which the catalogue of events.ts closes. Mail servers are
-- reached through packages/ws-tcp-proxy/ws-tcp-proxy.mjs, which may be limited by an allowlist.
--
-- Files, with the source that each models:
--   Prelude, Prelude/Lists, Prelude/Texts, Prelude/Tests: shared names, list lemmas, texts and tests.
--   Calls/CallState, and Calls/CallState/Runs: packages/calls/engine/call-state.ts. `transition`
--     returns the machine, whether it changed, and the calls that `notify` makes.
--   Calls/Signaling: packages/calls/engine/signaling.ts. A thrown TypeError is a `thrown` result.
--   Calls/IceGathering: packages/calls/engine/ice-gathering.ts, the race of candidates, timers and
--     the abort signal as a state machine over its events.
--   Calls/PopupSignaling: packages/calls/bridge/popup-signaling.ts, the popup's RPC client, the
--     parser of messages and the opener that serves. A promise is the id of its request.
--   Calls/PopupHost: packages/calls/bridge/popup-host.ts, the opener's side of the popup window.
--   Calls/Ringtone: packages/calls/bridge/ringtone.ts; how far Web Audio lets the tone get is part of the
--     event that starts it. Balance and Silence: its theorems.
--   Calls/Bridge: packages/calls/bridge/index.ts. The two methods that await an RPC call are cut there;
--     the step relation runs the engine's steps, the RPC answers and the calls of the application in
--     any order (Steps). A level meter is on or off. Hangup, Counts and Reports: its theorems.
--   CoreWasm/CryptoPool: packages/core-wasm/src/worker.ts, the class `CryptoPool`. `die` runs on fuel 4:
--     each round counts a failure, and it stops at the fourth. Steps: its events. Valid, Pumping, Events,
--     Settled: its theorems.
--   CoreWasm/Core: packages/core-wasm/src/index.ts. `fail` dispatches an event that its own listener
--     hears, so it runs on fuel 2: the second round finds the worker dead. yerpc's map of pending
--     requests is changed by a step of its own, and may be missing where the source looks for it.
--     Shutdown, Failure and Abandoned: its theorem.
--   WebApp/DecodeUri, WebApp/BlobRoute: packages/web-app/src/blob-route.ts, with the path that
--     packages/web-app/src/runtime.ts reads and, in Memfs, `normalize` of
--     crates/tokio-wasm-shim/src/fs.rs. Texts are lists of UTF-16 code units.
--   WebApp/BlobResponse: packages/web-app/src/blob-response.ts.
--   WebApp/SwCache: packages/web-app/src/sw-cache.ts.
--   WebApp/Events: packages/web-app/src/events.ts and emoji-sets.ts, the catalogue as the source writes it
--     and the parser of its properties.
--   WebApp/Analytics: packages/web-app/src/analytics.ts and session.ts. A call of `fetch` is an entry of a
--     list. A held call enters `event` again in the source; there the notice is released, and what is left
--     of `event` is `admit`. Calls: the calls of the rest of the page. OptOut and Notice: its theorems.
--   WebApp/Telemetry: packages/web-app/src/telemetry.ts, with a promise as the number of its call. Words
--     and Catalogued: its theorem.
--   WebApp/FatalReport: packages/web-app/src/fatal-report.ts. The loop that clips a report runs on fuel, a
--     round for each character and one more, which Clipped shows to be enough.
--   WebApp/BridgeChoice: packages/web-app/src/runtime.ts, the bridge that a page uses. Chosen: its theorem.
--   WebApp/TempPaths: packages/web-app/src/temp-paths.ts.
--   WebApp/CoreTransport: packages/web-app/src/runtime.ts, what `getCore` puts around the transport to the
--     core. Balance: its theorem.
--   WebApp/CallManager: packages/web-app/src/runtime.ts, the class `CallManager`: its slots, `teardown` and
--     `reportCallOutcome`. Handlers: its handlers; Heard: what it hears, each method run up to its awaits.
--     Recorded, Kept, Busy, Runs and HungUp: its theorems.
--   WebApp/Startup: packages/web-app/src/runtime.ts, the start of the core, the gate of a session that saves
--     nothing, and the fatal messages of the worker. Guarded: its theorem.
--   WebApp/TranslationSerialize: packages/web-app/src/translation-serialize.ts. RoundTrip: a reader of what
--     `escapeAndroid` writes, and its theorem.
--   CoreWasm/OpfsProbe: packages/core-wasm/src/opfs-probe.mjs, on fuel: a round for each millisecond of the
--     deadline and one more, which Ends shows to be enough for a pause of at least a millisecond.
--   Proxy: packages/ws-tcp-proxy/ws-tcp-proxy.mjs, its start and its handler of connections, cut at the
--     resolution of a name. `toLowerCase`, `Number` and node's check of addresses are parameters.
--     Allowed and Vetted: its theorems.
--   Calls/Devices: packages/calls/engine/devices.ts.
--   Calls/ConnectionRoute, and Calls/ConnectionRoute/Monitor: packages/calls/engine/
--     connection-route.ts, the route of a statistics report and the polling monitor. `tick` is cut
--     at its await into `tick` and `settle`.
--   Calls/CallOutcome: packages/calls/bridge/call-outcome.ts.
--   Calls/Engine: packages/calls/engine/audio-call.ts.
--     State: the fields of `AudioCallEngine` as a record. Every call of the platform and of the
--       callbacks is an `Effect`, put on top of the record's log.
--     Media, Teardown, Peer, Setup, Switching: the methods. A method runs without interruption up to
--       its next await; there it leaves a `Task`, which holds the local variables, and `resume_...`
--       is the code behind the await, given how the promise settled.
--     World: the step relation. A step is a call of any public method, an event of any listener, or
--       the settling of any pending promise, in any order. What the platform answers to the code
--       that runs without awaiting (the state of the connection and of the data channel, senders,
--       transceivers, a failing `createPeerConnection`) is a `Platform`, chosen anew at each step.
--     Ended, Quiet, Offers, Tracks, Camera, Failing: the theorems. Offers drives a set-up through its awaits, at
--       most seven, which its theorems show to be enough.
--   Proxy/Unfurl: packages/ws-tcp-proxy/unfurl.mjs, the fetch by recursion on the redirects left; what
--     the network does is an argument.
--   Examples: the definitions at concrete inputs.
--
-- Tracks, senders, transceivers and remote streams are numbers, and an epoch object is the number of
-- epoch objects made before it, so a new one differs from every earlier one. A step of the engine
-- grants no stream that the platform may not grant: a request without video yields no video track,
-- and a request for one kind yields at most one track, of that kind. A method that throws at its
-- caller does so before it changes anything, and makes no step. Every loop of the source is a
-- recursion on a list or on a number that the source counts down, but for those on fuel named above.
--
-- Not modelled: the media elements and the WebRTC stack, which only answer; most texts of errors; the
-- calls' React components and level meters; the worker's boot and its file-system messages; the bytes
-- that an open tunnel relays; the metadata of an unfurled page; the rest of the web application, which
-- works on the browser's document.
pub mod Prelude
pub mod Calls
pub mod CoreWasm
pub mod WebApp
pub mod Proxy
pub mod Examples
