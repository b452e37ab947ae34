-- ===== src/Sql/Mysql.antt =====
-- MySQL servers: pkg/clients/database/mysql.go and pkg/controller/database/mysqlserver/managed.go. The
-- SDK's package mysql has the same types, field by field, as its package postgresql, and the code is
-- the same statement by statement where the definitions here share helpers with those of PostgreSQL.
pub mod Params
pub mod Client
pub mod Controller
pub mod Lifecycle
pub mod Creation
pub mod Tests
