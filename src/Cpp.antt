-- ===== src/Cpp.antt =====
-- php_pdo/pdo_nuodb/php_pdo_nuodb_cpp_int.cpp: the C++ side of the PDO driver.
pub mod Statement
pub mod Handle
pub mod Jump
