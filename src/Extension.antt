-- ===== src/Extension.antt =====
-- The browser extension's own modules, src/*.js: the graph of a profile's steps, and the
-- connection to the native host.
pub mod Graph
pub mod NativeBridge
