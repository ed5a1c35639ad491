-- ===== src/Switch.antt =====
-- repository/termination_switch: the switch that ends the hosts' connections, adds up their packets
-- and sends the result on connections of its own.
pub mod State
pub mod Examples
pub mod Context
pub mod Send
pub mod Aggregate
pub mod Handler
