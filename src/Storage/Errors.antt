-- ===== src/Storage/Errors.antt =====
-- `StoreError` of app/dal/db/storage.py, and the errors that app/dal/db/store.py raises often.
use network_gateway_api.Prelude.{ℕ, String}

pub record StoreError : Type 0 where
  pub message : String
  pub status_code : ℕ

-- `StoreError(message)`, whose status code is 400
abbrev pub store_error : String → StoreError
store_error message = record { message = message; status_code = 400 }

abbrev pub store_error_code : String → ℕ → StoreError
store_error_code message status_code = record { message = message; status_code = status_code }

-- What `_transaction` makes of an IntegrityError, and of a SecretError.
abbrev pub conflict : StoreError
conflict = store_error_code "Operation conflicts with a reference or an active job." 409

abbrev pub cannot_decrypt : StoreError
cannot_decrypt = store_error_code "Stored credentials could not be decrypted." 503

-- `_row`
abbrev pub not_found : StoreError
not_found = store_error_code "Resource not found." 404
