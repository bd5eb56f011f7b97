-- ===== src/Event.antt =====
-- event.c: when events trigger, and the schedule that the heap of eventheap.c holds. The strings of
-- the configuration are read in Event/Parse.
pub mod Time
pub mod Store
pub mod Strtol
pub mod Parse
pub mod Accepted
pub mod Check
