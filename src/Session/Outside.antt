-- ===== src/Session/Outside.antt =====
-- repository/include/controller.h and repository/src/controller.cpp: groups of more ranks than the
-- block of `new uint32_t(world_size)` has words.
use inc_emulation.External.{External}
