-- ===== src/Native.antt =====
-- native-host: the host that the browser starts beside the extension.
pub mod Framing
