-- ===== src/Config.antt =====
-- The parts of qubes_snitch/config.py.
pub mod DnsRule
pub mod Resolve
pub mod Names
pub mod Sources
pub mod RuleFile
pub mod Rules
pub mod Settings
