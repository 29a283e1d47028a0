-- ===== src/Uri.antt =====
-- The URI grammar, in both character encodings, and the directive that hands out parts.
pub mod Standard
pub mod Unicode
pub mod Raw
pub mod Parts
pub mod Alike
pub mod Octets
pub mod Unaddressed
pub mod Groups
pub mod Gaps
pub mod Behind
pub mod Counted
pub mod Dotted
pub mod Between
pub mod Mapped
pub mod Compressed
pub mod Items
pub mod Characters
pub mod Spelt
pub mod Literals
pub mod Named
