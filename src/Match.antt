-- ===== src/Match.antt =====
-- frontend/src/hooks/useMatch.ts: the hook that ties the chat store to the connection.
mod State
mod Receive
mod Send
mod Start
mod React
pub mod Frames
pub mod Invariants
pub mod Wire
pub mod Throttle
pub mod Stop
pub mod Tests
pub use State.*
unfoldable pub use Receive.*
unfoldable pub use Send.*
unfoldable pub use Start.*
unfoldable pub use React.*
