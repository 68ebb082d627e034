-- ===== src/Server.antt =====
-- cmd/server: the management server that brokers between agents and viewers.
pub mod State
pub mod Upgrade
pub mod Agent
pub mod Viewer
pub mod Api
pub mod Admission
pub mod Broker
pub mod Steps
pub mod Handlers
pub mod Consistency
pub mod StoreOnly
pub mod Reconnect
pub mod Relay
pub mod Enrollment
pub mod FirstContact
pub mod Admin
pub mod Routes
pub mod Start
