-- ===== src/Text.antt =====
-- The parts of std::string, <cctype> and <cstdio> that the sources call. A string is the list of
-- its bytes; `operator[]` reads the terminating zero at the length and is undefined past it.
mod Defs
mod Numbers
mod Scanf
mod Laws
mod Decimal
unfoldable pub use Defs.*
unfoldable pub use Numbers.*
unfoldable pub use Scanf.*
pub use Laws.*
pub use Decimal.*
