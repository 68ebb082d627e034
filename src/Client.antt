-- ===== src/Client.antt =====
-- cmd/agent: the agent's side of a connection.
pub mod State
pub mod Capture
pub mod Loop
pub mod Sound
pub mod Running
pub mod Ending
pub mod Input
pub mod Screen
pub mod Info
pub mod Program
pub mod Dial
pub mod Stream
pub mod Kept
pub mod Tracked
