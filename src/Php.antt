-- ===== src/Php.antt =====
-- The older PHP extension (php/nuodb_php.cpp): functions that PHP scripts call directly, over global
-- tables of connections and results.
pub mod Library
pub mod Registry
pub mod Results
pub mod Connections
pub mod Query
pub mod Fetch
pub mod Requests
pub mod Invariant
pub mod Selecting
pub mod Freeing
pub mod Connecting
