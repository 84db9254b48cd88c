-- ===== src/Routes/Endpoints.antt =====
-- The endpoints of app/api/routes/management.py over the services, with `SafeManagementRoute`. The
-- models of app/api/schemas/management.py are checked by pydantic, and are parameters.
use network_gateway_api.Prelude.{
  ℕ, Bool, Option, none, some, List, String, if◌then◌else◌, Outcome, ok, err,
}
use network_gateway_api.Value.{Value, Fields, str, dict, among}
use network_gateway_api.Secrets.Vault.{Vault}
use network_gateway_api.Storage.Errors.{StoreError}
use network_gateway_api.Storage.Transaction.{transaction}
use network_gateway_api.Identity.{
  GatewayRole, viewer, operator, administrator, AuthError, http, value_error, unexpected,
  require_role,
}
use network_gateway_api.Management.Calls.{ManagementError, store_call}
use network_gateway_api.Configurations.Check.{config_names}
use network_gateway_api.Configurations.Operations.{Configuration, get_config, save_config}
use network_gateway_api.Inventory.Rows.{Inventory, resolve_connection}
use network_gateway_api.Inventory.Operations.{Resource, connections, get_resource, save, delete}
use network_gateway_api.Inventory.Listing.{list_resource}
use network_gateway_api.Management.SafeTest.{TestResult}
use network_gateway_api.Management.Testing.{test_connection}
use network_gateway_api.Prelude.Int.{Float}
use network_gateway_api.Jobs.Rows.{SnapshotItem}
use network_gateway_api.Jobs.Payload.{PublicJob}
use network_gateway_api.Batches.Service.{BatchService, start, get_batch}
use network_gateway_api.Routes.Guard.{
  Url, Request, Method, get_method, post_method, put_method, delete_method, check_browser_mutation,
}

-- The routes, but the capabilities, which are constant, and the CSV export
pub data Endpoint : Type 0 where
  list_items : Resource → Endpoint
  get_item : Resource → (item_id : String) → Endpoint
  create_item : Resource → Endpoint
  update_item : Resource → (item_id : String) → Endpoint
  delete_item : Resource → (item_id : String) → Endpoint
  test_item : (item_id : String) → Endpoint
  create_batch : Endpoint
  read_batch : (job_id : String) → Endpoint
  get_settings : (name : String) → Endpoint
  update_settings : (name : String) → Endpoint

abbrev pub method_of : Endpoint → Method
method_of (list_items _) = get_method
method_of (get_item _ _) = get_method
method_of (create_item _) = post_method
method_of (update_item _ _) = put_method
method_of (delete_item _ _) = delete_method
method_of (test_item _) = post_method
method_of create_batch = post_method
method_of (read_batch _) = get_method
method_of (get_settings _) = get_method
method_of (update_settings _) = put_method

-- The role that the endpoint depends on
abbrev pub required_role : Endpoint → GatewayRole
required_role (list_items _) = viewer
required_role (get_item _ _) = viewer
required_role (create_item _) = administrator
required_role (update_item _ _) = administrator
required_role (delete_item _ _) = administrator
required_role (test_item _) = operator
required_role create_batch = operator
required_role (read_batch _) = operator
required_role (get_settings _) = administrator
required_role (update_settings _) = administrator

pub record State : Type 0 where
  pub inventory : Inventory
  pub configurations : List Configuration
  pub batches : BatchService

pub data Response : Type 0 where
  fields : (status_code : ℕ) → Fields → Response
  listed : (status_code : ℕ) → List Fields → Response
  tested : (status_code : ℕ) → TestResult → Response
  job : (status_code : ℕ) → PublicJob → Response
  empty : (status_code : ℕ) → Response
  refused : (status_code : ℕ) (detail : String) → Response

abbrev invalid_fields : Response
invalid_fields = refused 422 "Invalid request fields."

abbrev auth_refused : AuthError → Response
auth_refused (http code detail) = refused code detail
auth_refused value_error = refused 500 "Internal Server Error"
auth_refused unexpected = refused 500 "Internal Server Error"

abbrev failed : ManagementError → Response
failed e = refused e.status_code e.message

abbrev answered : {A : Type 0} → (A → Response) → Outcome ManagementError A → Response
answered show (ok a) = show a
answered show (err e) = failed e

module _ (vault : Vault Fields) (batch_vault : Vault (List SnapshotItem))
    (key_error : Value → Value → Option String) (lower : String → String) (text_of : Value → String)
    (provider : String) (urlsplit : String → Option Url)
    (resource_body : Resource → Value → Option Fields) (batch_body : Value → Option (List String))
    (test_body : Value → Bool) (settings_body : Value → Option Fields)
    (settings_model : String → Fields → Option Fields) (float_of : Value → Option Float)
    (tester : Fields → Option Fields) (elapsed : Float) where
  abbrev saved : ℕ → State → Outcome StoreError Fields × Inventory → Response × State
  saved code s (result, inventory) =
      (answered (fields code) (store_call result), record s { inventory = inventory })

  abbrev save_with :
      ℕ → Request → Resource → Option String → State → Option Fields → Response × State
  save_with code request resource item_id s none = (invalid_fields, s)
  save_with code request resource item_id s (some payload) =
      saved code s (save vault key_error request.new_id resource payload item_id s.inventory)

  abbrev deleted : State → Outcome StoreError (Unit {0}) × Inventory → Response × State
  deleted s (result, inventory) =
      (answered (λ _. empty 204) (store_call result), record s { inventory = inventory })

  abbrev started : State → Outcome ManagementError PublicJob × BatchService → Response × State
  started s (result, batches) = (answered (job 202) result, record s { batches = batches })

  abbrev resolve_in : State → String → Outcome StoreError Fields
  resolve_in s id = (transaction (resolve_connection vault id) s.inventory).0

  abbrev start_with : Request → State → Option (List String) → Response × State
  start_with request s none = (invalid_fields, s)
  start_with request s (some ids) = started s (
      start batch_vault (resolve_in s) text_of provider
        (λ id. (get_resource vault key_error connections id s.inventory).0) request.new_id
        request.scheduled ids s.batches)

  -- `test_connection`; its body must be empty.
  abbrev tested_item : Request → String → State → Response
  tested_item request item_id s =
      if test_body request.body
      then answered (tested 200)
          (test_connection text_of float_of provider tester elapsed (resolve_in s item_id))
      else invalid_fields

  -- `_public_settings`
  abbrev public_settings : String → Fields → Response
  public_settings name payload = elim (settings_model name payload) [
    | none ↦ refused 500 "Invalid stored management configuration."
    | some shown ↦ fields 200 shown
  ]

  abbrev stored_settings :
      String → State → Outcome StoreError Fields × List Configuration → Response × State
  stored_settings name s (result, rows) =
      (answered (public_settings name) (store_call result), record s { configurations = rows })

  abbrev settings_with : String → State → Option Fields → Response × State
  settings_with name s none = (invalid_fields, s)
  settings_with name s (some payload) = elim (settings_model name payload) [
    | none ↦ (refused 422 "Invalid settings fields for the selected configuration.", s)
    | some validated ↦
        stored_settings name s (save_config lower (str name) (dict validated) s.configurations)
  ]

  -- `get_settings`
  abbrev settings_of : String → State → Response
  settings_of name s =
      if among name config_names
      then answered (public_settings name)
          (store_call (get_config lower (str name) s.configurations).0)
      else invalid_fields

  -- `update_settings`
  abbrev put_settings : Request → String → State → Response × State
  put_settings request name s =
      if among name config_names
      then settings_with name s (settings_body request.body)
      else (invalid_fields, s)

  -- The bodies of the endpoints
  unfoldable pub respond : Request → Endpoint → State → Response × State
  unfolding list_resource test_connection get_resource save delete start get_config save_config
      store_call transaction
  respond request (list_items resource) s =
      (answered (listed 200) (store_call (list_resource vault key_error resource s.inventory).0), s)
  respond request (get_item resource item_id) s = (
    answered (fields 200)
        (store_call (get_resource vault key_error resource item_id s.inventory).0),
    s,
  )
  respond request (create_item resource) s =
      save_with 201 request resource none s (resource_body resource request.body)
  respond request (update_item resource item_id) s =
      save_with 200 request resource (some item_id) s (resource_body resource request.body)
  respond request (delete_item resource item_id) s =
      deleted s (delete vault key_error resource item_id s.inventory)
  respond request (test_item item_id) s = (tested_item request item_id s, s)
  respond request create_batch s = start_with request s (batch_body request.body)
  respond request (read_batch job_id) s = (
    answered (job 200) (
        get_batch batch_vault (resolve_in s) text_of provider
          (λ id. (get_resource vault key_error connections id s.inventory).0) job_id s.batches),
    s,
  )
  respond request (get_settings name) s = (settings_of name s, s)
  respond request (update_settings name) s = put_settings request name s

  -- A request as `safe_handler` handles it: the guard, the role, the store, the endpoint
  unfoldable pub handle : Request → Endpoint → State → Response × State
  unfolding check_browser_mutation require_role respond
  handle request endpoint s =
      elim (check_browser_mutation urlsplit lower (method_of endpoint) request) [
        | err (code, detail) ↦ (refused code detail, s)
        | ok _ ↦ elim (require_role (required_role endpoint) request.authenticated) [
          | err e ↦ (auth_refused e, s)
          | ok _ ↦
              if request.store_ready
              then respond request endpoint s
              else (refused 503 "Management storage is unavailable.", s)
        ]
      ]
