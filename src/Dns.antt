-- ===== src/Dns.antt =====
-- qubes_snitch/dns.py. The children hold the parts of the file.
pub mod Names
pub mod Rules
pub mod Query
pub mod Checksum
pub mod Reply
