-- ===== src/Lib.antt =====
-- Drivers for NuoDB, each over the same C++ client library: the PDO driver (php_pdo/pdo_nuodb), the
-- older PHP extension (php/nuodb_php.cpp), the Perl driver (perl_dbi/dbdimp.cpp), the Ruby driver
-- (ruby/nuodb/ext/nuodb/nuodb.cpp), the Node.js driver (nodejs/src), whose results read one row ahead of
-- their user, and the .NET data provider (dotnet/nuodb).
--
-- The PDO driver: PHP's database interface PDO calls the methods of a connection and of a statement,
-- written in C; they call the functions of an `extern "C"` layer, and these call two C++ classes. The
-- PHP extension keeps the connections and results of all scripts of a process in global tables, and
-- a script gets their addresses as resources. The Perl driver is called by DBI with the handle of a
-- connection or of a statement. The Ruby driver wraps the objects of the client library, each in a
-- class of Ruby. The .NET provider keeps a connection, a command with its parameters and a reader as
-- objects that refer to one another.
--
-- The parts, from the bottom up:
--   Prelude    bytes, lists and numbers that all modules share. Prelude/Outcome has calls over an
--              explicit state that return, throw an exception or run into undefined behaviour, and
--              Prelude/Partial the computations that fail when they leave a buffer.
--   Zend       the hash table of the Zend engine, as an interface with its laws.
--   Client     the client library, as an interface: it may return or throw at each call, and no
--              law is assumed of it.
--   Sql        functions on text. Rewrite is the loop of `nuodb_alloc_prepare_stmt` that replaces
--              `:name` by `?`, Quote is `nuodb_handle_quoter` (both nuodb_driver.c), and Kind is the
--              reading of the first word in `PdoNuoDbStatement::createStatement`
--              (php_pdo_nuodb_cpp_int.cpp).
--   Machine    the state of the connection: `pdo_dbh_t`, `pdo_nuodb_db_handle`, `PdoNuoDbHandle`,
--              and a heap of `PdoNuoDbStatement` objects, on which a deleted object stays visible
--              as such, so that a use after `delete` is undefined behaviour of the model.
--   Session    a statement of PDO, `pdo_nuodb_stmt`, beside the connection.
--   Cpp        php_pdo_nuodb_cpp_int.cpp: Statement and Statement/Columns are the methods of
--              `PdoNuoDbStatement`, Handle those of `PdoNuoDbHandle`, and Jump with its children
--              the functions `pdo_nuodb_db_handle_…` and `pdo_nuodb_stmt_…`.
--   Pdo        Driver and Prepare are the methods of nuodb_driver.c, Statement with its children
--              Columns and Hook those of nuodb_statement.c. The other children hold proofs.
--   Php        php/nuodb_php.cpp. Registry has the global tables, Results what frees a result,
--              Connections `nuodb_connect` and `nuodb_disconnect`, Query `nuodb_query`,
--              `nuodb_free_result` and `nuodb_error`, Fetch the functions that fetch a row, and
--              Requests the calls of scripts one after another, as a step relation. The other
--              children hold proofs.
--   Dbi        perl_dbi/dbdimp.cpp and dbdimp.h. Handles has the two handles, Connection the
--              functions `dbd_db_…` and Statement the functions `dbd_st_…` and `dbd_bind_ph`. The
--              other children hold proofs.
--   Ruby       ruby/nuodb/ext/nuodb/nuodb.cpp. Calls has the frame that all methods share, with the
--              mapping of exceptions and the conversions; a file for each class `Wrap…` has its
--              methods, and Requests has them together, but for `getType`. Asked lists the call
--              that each is there for and the words of its errors; Explained, Errors and Booleans
--              hold proofs. Library has the operations of the client library, as data, and what the
--              driver uses of the Ruby interpreter.
--   Node       nodejs/src/node_db_nuodb_result.cc. Result has the methods of the class, with the
--              buffers of rows on a heap; Reading and Ownership follow the buffers while rows are
--              read, and Lifetime from the constructor to the destructor. Connection is
--              node_db_nuodb_connection.cc and the limited query of node_db_nuodb_query.cc, and Alive
--              holds proofs. An exception that the exception specification of a method does not
--              name is a call of `std::unexpected`.
--   Dotnet     dotnet/nuodb. Calls has what a method of .NET can end with. Parameters is parameter.cpp:
--              the setters of a parameter and the named `Add`, Parameters/Editing the rest of the
--              collection and Parameters/Requests all its calls together. Objects has the fields of
--              the other classes; Connection is connection.cpp and transaction.cpp, Connection/Parse
--              the parser of the connection string; Command is command.cpp; Reader with its
--              children Creating and Values is datareader.cpp, with the column type of stdafx.h.
--              Connection/Requests and Reader/Requests have the methods of a class together. The
--              other children hold proofs. Library is the C interface of the client library and what
--              the driver uses of .NET. A program has one connection, one command and one reader.
--              Php/Library, Dbi/Library, Node/Library and Dotnet/Library are the client library as those drivers
--              call it: as in Client, it may return or throw at each call, and no law is assumed
--              of it.
--   Tests      a hash table, a client library and sessions, with which the theorems are applied.
--
-- A `char *` is a list of bytes without its NUL, and a pointer that may be NULL is an `Option`. A
-- status of 1 is `true`. Columns and parameters count from 0 in the driver, and from 1 in the
-- client library.
--
-- Bounds and fuel: the rewriting loop and the quoter recur on their text. The two loops of the
-- quoter are given the length of the text, and each round uses up one byte at least. The loop over
-- the generated keys (`last_key`) ends only when the client library says so, and has fuel: a result
-- of `none` is that it ran out, and no theorem assumes that it did not.
--
-- Pointers of the PHP extension are numbers, and the address of a deleted object is never used
-- again, so that a pointer to it is seen to dangle; an iterator that an insertion or an erasure has
-- made invalid is `none`. The loops of the drivers but PDO's are over the columns of a row, by their
-- number; the loops of their users, which fetch until there is no row, have fuel. The loop of the .NET
-- reader over its columns asks for their number in each round; its fuel is the number of values of an
-- `int`, and it is shown to end.
--
-- Not modelled: `long` and `int` are unbounded, but for the truncation to an `int` in `setInteger`,
-- the numbers of columns in the Node.js driver and the conversions of the Ruby driver;
-- logging; the allocation of memory, which is taken to succeed; the code that is disabled by
-- `#if 0`; the module's registration in pdo_nuodb.c; in php/nuodb_php.cpp the registration of the
-- module, the parsing of arguments by the Zend engine and the call of a constructor in
-- `nuodb_fetch_object`; of the Perl driver the decoding of UTF-8 by Perl; of the Ruby
-- driver the registration of its methods and the collection of garbage; of the Node.js driver the
-- set-up of its classes for the JavaScript engine and what node-db does, from which they derive; of the
-- .NET driver the collector of garbage, the copies to arrays of the caller, the width of an `int` but
-- for its casts, and the serialization of exceptions.
pub mod Prelude
pub mod Zend
pub mod Sql
pub mod Client
pub mod Php
pub mod Dbi
pub mod Ruby
pub mod Node
pub mod Dotnet
pub mod Machine
pub mod Session
pub mod Cpp
pub mod Pdo
pub mod Tests
