-- ===== src/Tests.antt =====
-- Runs of the model at concrete values, and applications of its theorems to them.
mod Values
mod Slots
mod Sweeps
mod Linking
mod Journal
mod Acquiring
mod Publishing
mod Cloning
mod Walking
mod Ingesting
mod EqualFiles
mod Sealing
