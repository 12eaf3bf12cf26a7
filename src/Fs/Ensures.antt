-- ===== src/Fs/Ensures.antt =====
-- A program logic: what an action keeps true of the volume at each of its steps, while the
-- surroundings keep it too, and what holds of the value that it returns.
pub mod Calls
pub mod Logic
pub use Calls.*
pub use Logic.*
