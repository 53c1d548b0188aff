-- ===== src/Tests.antt =====
-- Concrete instances of the parameters, and the theorems applied to concrete inputs.
pub mod Data
mod Crypto
mod Rooms
mod Wire
mod Hosts
mod Meetings
mod Web
mod Runs
mod Steady
mod Machines
mod Prompts
