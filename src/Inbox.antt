-- ===== src/Inbox.antt =====
-- frontend/src/components/notifications/InboxProvider.tsx: what a tab does with the events of the
-- inbox. A request that is answered later is an effect, and its answer an input; what the browser and
-- the other components know when an event arrives is a `Place`.
mod State
mod Events
mod React
pub mod Unread
pub mod Silence
pub mod Tests
unfoldable pub use State.*
unfoldable pub use Events.*
unfoldable pub use React.*
