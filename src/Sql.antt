-- ===== src/Sql.antt =====
-- SQL database servers: apis/database/v1beta1/sql_types.go, pkg/clients/database and
-- pkg/controller/database.
pub mod Types
pub mod Postgresql
pub mod Mysql
pub mod Rules
pub mod Configuration
