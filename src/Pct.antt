-- ===== src/Pct.antt =====
-- include/foxy/pct_encode.hpp and pct_decode.hpp: percent coding of URI components.
pub mod Encode
pub mod Decode
pub mod RoundTrip
pub mod Digits
