-- ===== src/Tests.antt =====
-- Runs of the models on concrete inputs, and the theorems at concrete inputs.
mod Protocol
mod Session
mod Updates
mod Login
mod Auth
mod Bot
mod Media
