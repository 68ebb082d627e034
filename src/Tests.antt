-- ===== src/Tests.antt =====
-- Runs of the theorems on concrete inputs.
mod Samples
mod Protocol
mod Security
mod Keys
mod Store
mod Server
mod Enrollment
mod Admin
mod Client
mod Desk
mod Start
mod Listen
mod Session
mod Stream
