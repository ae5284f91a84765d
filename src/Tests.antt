-- ===== src/Tests.antt =====
-- Runs of the models on small inputs.
pub mod Packets
pub mod Dns
pub mod Policy
pub mod Queue
pub mod Handlers
pub mod Answers
pub mod Nft
pub mod Sources
pub mod Alerts
pub mod Config
pub mod Runtime
pub mod Hints
pub mod Reply
pub mod Dom0
pub mod Settings
pub mod Client
pub mod Start
pub mod Saving
