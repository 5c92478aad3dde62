-- ===== src/Ruby.antt =====
-- The Ruby driver (ruby/nuodb/ext/nuodb/nuodb.cpp): methods that wrap those of the client library.
pub mod Library
pub mod Calls
pub mod DatabaseMetaData
pub mod ResultSet
pub mod ResultSetMetaData
pub mod Statement
pub mod PreparedStatement
pub mod Connection
pub mod Requests
pub mod Asked
pub mod Explained
pub mod Errors
pub mod Booleans
