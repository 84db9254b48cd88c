-- ===== src/Inventory/Tests.antt =====
-- The inventory at concrete rows.
use network_gateway_api.Prelude.{refl, none, some, [], ◌∷◌, String, Option}
use network_gateway_api.Prelude.Int.{pos}
use network_gateway_api.Value.{Value, Fields, int, end}
use network_gateway_api.Secrets.Vault.{Vault}
use network_gateway_api.Storage.Tables.{find}
use network_gateway_api.Inventory.Rows.{RoleAccount, Connection, Inventory}
use network_gateway_api.Inventory.Operations.{role_accounts, delete}
use network_gateway_api.Inventory.References.{IsConsistent, delete-IsConsistent}

abbrev vault : Vault Fields
vault = record { encrypt = λ _. "token"; decrypt = λ _. some end }

abbrev key_error : Value → Value → Option String
key_error key passphrase = none

abbrev role : RoleAccount
role = record {
  id = "r1";
  name = "operators";
  username = "ada";
  authentication_type = "password";
  secrets = "token";
}

abbrev connection : Connection
connection = record {
  id = "c1";
  name = "core";
  protocol = "ssh";
  host = "10.0.0.1";
  port = 22;
  timeout_seconds = int (pos 10);
  role_account_id = some "r1";
  proxy_id = none;
  configuration = end;
  secrets = "token";
}

abbrev db : Inventory
db = record { roles = role ∷ []; proxies = []; connections = connection ∷ [] }

IsConsistent-db : IsConsistent db
unfolding find
IsConsistent-db = record {
  roles_of_connections = ((role, refl), tt);
  proxies_of_connections = (tt, tt);
  roles_of_proxies = tt;
}

delete-IsConsistent_example : IsConsistent (delete vault key_error role_accounts "r1" db).1
delete-IsConsistent_example =
    delete-IsConsistent vault key_error role_accounts "r1" db IsConsistent-db
