-- ===== src/Alerts.antt =====
-- qubes_snitch/alerts_runtime.py, and qubes_snitch/notify.py below it.
pub mod Buckets
pub mod Lines
pub mod Popups
