-- ===== src/Track.antt =====
-- The tracks of one camera: helpers/track_manager.hpp.
pub mod Assign
pub mod Associate
pub mod Associated
pub mod Augment
pub mod Calls
pub mod Classes
pub mod Columns
pub mod Ends
pub mod Finite
pub mod Frame
pub mod Ids
pub mod Indices
pub mod Life
pub mod Manager
pub mod Matches
pub mod Published
pub mod Rows
pub mod Scan
pub mod Search
pub mod Seen
pub mod State
pub mod Update
mod Tests
