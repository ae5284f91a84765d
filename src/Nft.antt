-- ===== src/Nft.antt =====
-- qubes_snitch/nft.py: the table of the packet filter. Lines writes the rules of one source, Table
-- the whole table, and Load installs it; the other children say what the table does.
pub mod Parts
pub mod Lines
pub mod Table
pub mod Load
pub mod Quoting
pub mod Filter
pub mod Verdicts
