-- ===== src/Defs.antt =====
-- The enumerations that all parts of the program share.
pub mod Tag
pub mod Codes
