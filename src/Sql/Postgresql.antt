-- ===== src/Sql/Postgresql.antt =====
-- pkg/clients/database/postgresql.go and pkg/controller/database/postgresqlserver/managed.go
pub mod Params
pub mod Client
pub mod Controller
pub mod InSync
pub mod Lifecycle
pub mod Creation
pub mod Tests
