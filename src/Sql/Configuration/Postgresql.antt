-- ===== src/Sql/Configuration/Postgresql.antt =====
-- pkg/controller/database/postgresqlserverconfiguration/managed.go: Create, Update and Delete, which
-- are those of MySQL with other texts and another provider in the external name.
use provider_azure.Prelude.{String, Option}
use provider_azure.Go.Errors.{Err}
use provider_azure.Go.Effect.{M}
use provider_azure.Vendor.{Vendor}
use provider_azure.Managed.{Detailed}
use provider_azure.Sql.Configuration.{ServerConfiguration}
use provider_azure.Sql.Configuration.Controller as Shared
use provider_azure.Sql.Configuration.Controller.{External, Created, postgresql_texts}

module _ {W : Type 0} (e : External W) ⦃v : Vendor⦄ where
  abbrev postgresql_ext_name : String → String → String → String
  postgresql_ext_name = Shared.generate_ext_name postgresql_texts e

  abbrev create_postgresql_configuration : M (Option ServerConfiguration) W Created
  create_postgresql_configuration = Shared.create postgresql_texts e

  abbrev update_postgresql_configuration : M (Option ServerConfiguration) W Detailed
  update_postgresql_configuration = Shared.update postgresql_texts e

  abbrev delete_postgresql_configuration : M (Option ServerConfiguration) W (Option Err)
  delete_postgresql_configuration = Shared.delete postgresql_texts e
