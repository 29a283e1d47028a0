-- ===== src/Uri/Standard.antt =====
-- include/foxy/uri.hpp, namespace foxy::uri: the rules of RFC 3986, appendix A.
pub mod Chars
pub mod Paths
pub mod Hosts
pub mod Whole
unfoldable pub use Chars.*
unfoldable pub use Paths.*
unfoldable pub use Hosts.*
unfoldable pub use Whole.*
