-- ===== src/Lib.antt =====
-- A model of the Network Gateway API, a control plane for network equipment written in Python.
--
-- The parts, and the files that model them:
--
-- - Prelude, Prelude/*: shared names, tests, lists, Python's numbers and results that may be
--   exceptions.
-- - Value, Text: the dynamic values that the gateway passes about (what JSON has), and the text
--   functions of Python over code points.
-- - Secrets, Secrets/*: app/dal/db/secrets.py. `public_fields`, `credential_values` and `redact`
--   are functions over values and texts; the vault is an interface.
-- - Storage, Storage/*: `StoreError` and the tables of app/dal/db/storage.py, and `_transaction`
--   of app/dal/db/store.py. A table is a list of rows; a block is a function from the database to
--   a result with the new database or an exception, and `transaction` rolls back where it raises,
--   on an open store whose database works. `calling` adds what a closed store and a failing
--   database do to a call; the worker of the batches is modelled with it, and the other callers
--   are taken to meet an open store.
-- - Jobs, Jobs/*: the connection-test jobs of app/dal/db/store.py, from creation through results
--   and changes of status to the recovery at start. The clock is not needed; a new key is an
--   argument, as `uuid.uuid4` is not code of the repository.
-- - Telnet, Telnet/*: app/dal/device/telnet_client.py. Bytes are numbers below 256, what the
--   negotiator sends is a list of messages, and the rounds of a read (a chunk, a failure, the
--   deadline) are given as a list, so that no fuel is needed: a read that has used up its rounds
--   is still waiting. Telnet/Client is the client's connection, login and commands; whether a
--   connection is made and a send succeeds is given as well.
-- - Batches, Batches/*: app/bl/services/batches.py. `_run` is a run over the job's connections;
--   what a test returns at each connection, and whether shutdown was asked for by then, is an
--   argument, as is how the store is at each call: it works, it was closed or its database fails.
--   `start` submits a job or, where the executor refuses it, fails it.
-- - Management, Management/*: `store_call`, `check_test_provider`, `safe_test` and the dispatch
--   of tests of app/bl/services/management.py.
-- - Identity, Identity/*: app/common/identity.py, roles and the two dependencies of the routes.
-- - Auth, Auth/*: app/bl/services/auth.py and the settings of config/settings.py. The environment
--   is a function. HMAC, base64 and JSON are an interface `Codec`, whose assumption is that
--   base64 reads back what it wrote, and JSON the same with the keys of its objects in order,
--   since `_sign` sorts them; the RSA check, the HTTP requests, UUIDs and the clock are
--   parameters. The cache of documents and key sets is passed along. Auth/Accepted, Verified and
--   Completed spell out what accepted claims and a completed login have been through.
-- - Connectors, Connectors/*: app/dal/proxy/connectors.py, `validate_profile`, the bounded reads,
--   `_socks5`, `_http_connect` and `read_prompt`, with the peers that answer them in
--   demo/emulators/proxy_protocols.py and the Telnet login of
--   app/bl/services/connection_tests.py. A stream is the list of the chunks that its socket
--   returns. The loop of `receive_exact` runs on the number of the bytes that are still wanted,
--   which each nonempty chunk lowers, so that it needs no other bound. The deadline is a state
--   that the threads of the timer and of the test change in steps, as its lock has them. The loop
--   of `read_prompt` runs on 16385 rounds: it stops where more than 16384 bytes have come, and a
--   round reads a byte at least.
-- - Audit, Audit/*: the redaction, validation, insertion and listing of audit records in
--   app/dal/db/store.py. UUID parsing, the key and the time are arguments.
-- - StaticRoutes, StaticRoutes/*: the static routes of app/dal/db/store.py with and without an
--   audit record. Parsing of networks and addresses is a parameter.
-- - Inventory, Inventory/*: saved connections, proxies and role accounts of app/dal/db/store.py:
--   get, list, save, delete and resolution. The order of a list is by code points, as SQLite has
--   it. The check of a private key is a parameter.
-- - DeviceData, DeviceData/*: app/dal/device/fake_client.py, the simulated device, and
--   app/bl/services/device_data.py, the service over it. The inventory of saved connections does
--   not change between the calls of the store that one call of the service makes.
-- - Factories, Factories/*: app/bl/factories/client_factory.py, app/bl/factories/proxy_factory.py
--   and the lookup of app/dal/db/db_client.py. The SQL query, and whether a class is imported and
--   made, are parameters.
-- - Routes, Routes/*: app/api/routes/management.py. A request brings its headers, what
--   `authenticate_request` gives and its body; the pydantic models are parameters, and an
--   endpoint is a function from the state to the response and the new state.
-- - Configurations, Configurations/*: `validate_config`, `get_config` and `save_config` of
--   app/dal/db/store.py.
--
-- How they interact: a batch drives the jobs by `record_job_result` and `set_job_status`; a job's
-- snapshot goes through the vault and its texts through `redact`; each method of the store is a
-- transaction, and an audited change of a route inserts its audit record in the same one; what
-- the store raises reaches a caller through `store_call`; a request passes `authenticate_request`
-- and `require_role` before it.
--
-- Not modelled: the other HTTP routes and the schemas, SQL, sockets, SSH and NETCONF libraries,
-- logging, the demo's emulators and the browser code, which are calls of libraries or thin layers
-- over the parts above; nor are the SSH and NETCONF stages of a connection test.
pub mod Audit
pub mod Auth
pub mod Batches
pub mod Configurations
pub mod Connectors
pub mod DeviceData
pub mod Factories
pub mod Identity
pub mod Inventory
pub mod Jobs
pub mod Management
pub mod Prelude
pub mod Routes
pub mod Secrets
pub mod StaticRoutes
pub mod Storage
pub mod Telnet
pub mod Text
pub mod Value
