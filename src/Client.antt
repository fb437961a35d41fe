-- ===== src/Client.antt =====
-- include/Client.h and src/Client.cpp.
pub mod Call
pub mod Connection
pub mod Registry
mod Tests
