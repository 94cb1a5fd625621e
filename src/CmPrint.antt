-- ===== src/CmPrint.antt =====
-- common/cm_print.c and cm_print.h: log lines to the console and to a file, by level and style.
pub mod Log
pub mod Init
pub mod Before
pub mod Print
pub mod Sinks
pub mod Bound
pub mod Levels
pub mod Errors
mod Tests
