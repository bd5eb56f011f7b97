-- ===== src/Tests.antt =====
-- Runs of the model on concrete inputs, and the theorems at inputs that meet their hypotheses.
mod Heap
mod Config
mod KeyValues
mod Schedule
mod Timer
mod Users
mod Startup
mod Logger
mod Rounds
