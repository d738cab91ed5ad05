-- ===== src/Queue/Tests.antt =====
-- Runs of the queue at concrete inputs, and instances of the theorems about it.
mod Data
mod Plans
mod Runs
mod Edits
