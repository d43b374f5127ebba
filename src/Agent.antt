-- ===== src/Agent.antt =====
-- platform/browser-agent: the agent that runs beside the browser.
pub mod Outbox
pub mod Input
pub mod Errors
pub mod Stop
pub mod Coordinates
