-- ===== src/X3.antt =====
-- Boost.Spirit.X3: the grammars that foxy writes down, and what is assumed of the library.
pub mod Grammar
pub mod Run
pub mod Progress
pub mod Library
pub mod Reference
pub mod Consumed
pub mod Ascii
pub mod Pieces
