-- ===== src/Host.antt =====
-- repository/src/api.c: the host library. The verbs calls (ibv_post_send, ibv_post_recv,
-- ibv_poll_cq) are the adapter's: what it is given is recorded, and what it gives back is an argument.
pub mod Allreduce
pub mod Window
pub mod Result
pub mod Reduce
pub mod Broadcast
pub mod Write
pub mod Setup
mod Tests
