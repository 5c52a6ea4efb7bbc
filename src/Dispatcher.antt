-- ===== src/Dispatcher.antt =====
-- updates/options.go and updates/dispatcher.go: the dispatcher of message updates.
pub mod Config
pub mod Dispatch
pub mod Policy
pub mod Handlers
