-- ===== src/Sql.antt =====
-- What the PDO driver does with the text of a statement.
pub mod Rewrite
pub mod Quote
pub mod Kind
