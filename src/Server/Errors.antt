-- ===== src/Server/Errors.antt =====
-- internal/server/errors.go: the errors of the processors and the status that each is answered with.
use wacht.Shared.{ℕ, String}
use wacht.Monitoring.Types.{Error}

-- `internal` is an error of any other type, with what its wrapping says.
pub data ServerError : Type 0 where
  bad_request too_large unauthorized not_found : String → ServerError
  internal : String → Error → ServerError

-- writeProcessorError, and the 500 that the handlers answer where it answers nothing.
unfoldable pub status_code : ServerError → ℕ
status_code (ServerError.bad_request message) = 400
status_code (ServerError.too_large message) = 413
status_code (ServerError.unauthorized message) = 401
status_code (ServerError.not_found message) = 404
status_code (ServerError.internal message e) = 500
