-- ===== src/Fs.antt =====
-- The operating system that the program runs on, as the standard library presents it.
pub mod Path
pub mod Quietly
pub mod Runs
pub mod Table
pub mod State
pub mod World
pub mod Calls
pub mod Handles
pub mod Delivers
pub mod Ensures
pub mod Undisturbed
pub mod Returns
