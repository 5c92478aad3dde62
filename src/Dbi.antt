-- ===== src/Dbi.antt =====
-- The Perl driver (perl_dbi/dbdimp.cpp): the functions that DBI calls for the driver NuoDB.
pub mod Library
pub mod Handles
pub mod Connection
pub mod Statement
pub mod Login
pub mod Refusals
pub mod Rows
pub mod Binding
