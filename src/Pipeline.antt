-- ===== src/Pipeline.antt =====
-- repository/src/non_termination_switch.c: the switch that handles the packets of all ports one after
-- another, without connections of its own. Its global arrays are the fields of a record.
pub mod Parts
pub mod Step
pub mod Phase
pub mod Slot
pub mod Refine
pub mod Stale
mod Tests
