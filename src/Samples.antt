-- ===== src/Samples.antt =====
-- Concrete inputs for the tests and the witnesses.
pub mod Desired
pub mod Running
pub mod Joined
mod Completed
mod Written
mod Census
mod Checked
mod Walked
mod Runs
mod Conditions
