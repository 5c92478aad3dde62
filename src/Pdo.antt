-- ===== src/Pdo.antt =====
-- The C side of the PDO driver: the methods that PDO calls on a connection and on a statement.
pub mod Driver
pub mod Prepare
pub mod Statement
