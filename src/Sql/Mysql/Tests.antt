-- ===== src/Sql/Mysql/Tests.antt =====
-- A MySQL server over a concrete Azure: the world counts the calls.
use provider_azure.Prelude.{ℕ, ◌+◌, ◌≡◌, refl, inl, true, none, arith}
use provider_azure.Go.Num.{itoa}
use provider_azure.Go.Errors.{ok, err}
use provider_azure.Vendor.Standard.{standard, standard-Documented}
use provider_azure.Azure.Convert.{
  to_string, to_string_ptr, to_string_ptr_map, to_int32_ptr, to_int32_ptr_from_int_ptr,
}
use provider_azure.Sql.Postgresql.Lifecycle.{not_found}
use provider_azure.Go.Effect.{Session}
use provider_azure.Sql.Types.{SqlServer}
use provider_azure.Sql.Postgresql.Tests.{parameters, sku, server, session, text_ne_empty}
use provider_azure.Sql.Mysql.Client.{create_mysql_server}
use provider_azure.Sql.Postgresql.Creation.{NotAbsent}
use provider_azure.Sql.Mysql.Creation.{Unfinished, start, again, observe_mysql-Watched}
use provider_azure.Sql.Mysql.Params.{to_mysql_sku, mysql_update_parameters, is_mysql_up_to_date}
use provider_azure.Sql.Mysql.Controller.{External, create_mysql, observe_mysql}
use provider_azure.Sql.Mysql.Lifecycle.{is_mysql_up_to_date-mysql_update_parameters}

to_mysql_sku_basic : to_mysql_sku ⦃v = standard⦄ parameters.sku ≡ ok sku
unfolding to_mysql_sku to_string_ptr to_int32_ptr itoa
to_mysql_sku_basic = refl

is_mysql_up_to_date-mysql_update_parameters_example :
    is_mysql_up_to_date ⦃v = standard⦄ parameters server ≡ true
unfolding mysql_update_parameters to_string to_string_ptr_map to_int32_ptr to_int32_ptr_from_int_ptr
is_mysql_up_to_date-mysql_update_parameters_example =
    is_mysql_up_to_date-mysql_update_parameters ⦃v = standard⦄ standard-Documented parameters sku
      server to_mysql_sku_basic (tt, tt) (inl (omega arith)) (inl (omega arith))
      (record {
        sku = refl;
        profile = refl;
        version = refl;
        tls = refl;
        ssl = refl;
        access = refl;
        tags = refl;
      })

-- Azure has not the server yet, and starts operations at the URL "u".
abbrev azure : External ℕ
azure = record {
  client = record {
    get = λ g n w. (err not_found, w + 1);
    create = λ g n p w. (ok "u", w + 1);
    update = λ g n p w. (ok "u", w + 1);
    delete = λ g n w. (err not_found, w + 1);
  };
  futures = record {
    unmarshal_json = λ j. none;
    done_with_context = λ j w. (record { status = "InProgress"; error = none }, w + 1);
    error_text = λ e. "";
  };
  update_object = λ c w. (ok c, w + 1);
  new_password = λ w. (ok "new", w + 1);
}

-- The server whose creation has started.
abbrev creating_server : SqlServer
creating_server = (create_mysql azure ⦃v = standard⦄ session).1.object

abbrev first : Session SqlServer ℕ
first = record { object = creating_server; world = 5 }

unfinished : Unfinished azure ⦃v = standard⦄ first
unfolding create_mysql create_mysql_server to_string_ptr to_int32_ptr itoa
unfinished = record { reply = not_found; after_get = 6; answer = refl; in_progress = λ n. refl }

abbrev second : Session SqlServer ℕ
second = record { object = (observe_mysql azure ⦃v = standard⦄ first).1.object; world = 9 }

observe_mysql-Watched_example : NotAbsent (observe_mysql azure ⦃v = standard⦄ second).0
unfolding create_mysql create_mysql_server to_mysql_sku to_string_ptr to_int32_ptr itoa
    observe_mysql
observe_mysql-Watched_example =
    observe_mysql-Watched azure ⦃v = standard⦄ standard-Documented session second (err not_found) 10
      refl (text_ne_empty "u" refl) (again 9 (start 5) unfinished) refl (λ x r n. refl)
