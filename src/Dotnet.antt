-- ===== src/Dotnet.antt =====
-- The .NET driver (dotnet/nuodb), a data provider of ADO.NET written in C++/CLI.
pub mod Calls
pub mod Library
pub mod Objects
pub mod Connection
pub mod Parameters
pub mod Command
pub mod Reader
