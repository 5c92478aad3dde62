-- ===== src/Tests.antt =====
-- Examples and tests of the development.
mod Samples
mod Sql
mod Driver
mod Statements
mod Dbi
mod Php
mod Ruby
mod Node
mod Dotnet
