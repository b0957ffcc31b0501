-- ===== src/WebApp.antt =====
-- packages/web-app/src: the modules of the web application that decide without a browser.
pub mod BlobResponse
pub mod DecodeUri
pub mod BlobRoute
pub mod SwCache
pub mod Events
pub mod Analytics
pub mod Telemetry
pub mod FatalReport
pub mod BridgeChoice
pub mod TempPaths
pub mod CoreTransport
pub mod Startup
pub mod TranslationSerialize
pub mod CallManager
