-- ===== src/Media/Crf.antt =====
-- include/avtp/Crf.h. The names of the children are passed on.
mod Fields
mod V0
mod V1
mod Access
mod Frame
unfoldable pub use Fields.*
unfoldable pub use V0.*
unfoldable pub use V1.*
unfoldable pub use Access.*
unfoldable pub use Frame.*
