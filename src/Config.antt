-- ===== src/Config.antt =====
-- src/cfg.c and include/ccore/cfg.h: configuration files of `key: value` lines, and the entries
-- that are read from them.
pub mod Entries
pub mod Getters
pub mod MissingValue
pub mod Parser
pub mod Reader
pub mod Values
mod Tests
