-- ===== src/Packets.antt =====
-- qubes_snitch/packets.py. The children hold the parts of the file.
pub mod Parse
pub mod Ports
