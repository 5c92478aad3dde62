-- ===== src/Node.antt =====
-- The Node.js driver (nodejs/src): the connection and the result of a query.
pub mod Library
pub mod Result
pub mod Reading
pub mod Ownership
pub mod Lifetime
pub mod Connection
pub mod Alive
