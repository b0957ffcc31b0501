-- ===== src/CoreWasm.antt =====
-- packages/core-wasm/src: the page's and the worker's side of the core.
pub mod CryptoPool
pub mod Core
pub mod OpfsProbe
