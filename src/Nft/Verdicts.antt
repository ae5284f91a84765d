-- ===== src/Nft/Verdicts.antt =====
-- The verdicts of the chain of a source. The children say what one line and one rule match.
pub mod Matches
pub mod OneRule
pub mod Chain
pub mod Agreement
pub mod Safety
