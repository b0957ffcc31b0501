-- ===== src/Examples.antt =====
-- The theorems at concrete inputs, and runs of the definitions.
mod Helpers
mod Manager
mod Engine
mod Offers
mod Gathering
mod Popup
mod Ringtone
mod Bridge
mod CryptoPool
mod Core
mod WebApp
mod Proxy
mod Unfurl
mod Usage
mod Runtime
mod Transport
mod Startup
mod Reports
