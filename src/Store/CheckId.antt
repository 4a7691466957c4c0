-- ===== src/Store/CheckId.antt =====
-- internal/store/check_identity.go: the canonical text of a check's ID.
use wacht.Shared.{String, Bool, false, Option, none, some, ◌==◌, if◌then◌else◌}
use wacht.Shared.Text.{trim_space}
use wacht.Shared.Action.{Result, ok, err}
use wacht.Monitoring.Types.{Error}

abbrev pub invalid_check_id : Error
invalid_check_id = Error.external "store: invalid check id"

-- uuid.Nil.String()
abbrev nil_uuid : String
nil_uuid = "00000000-0000-0000-0000-000000000000"

-- The text in the error stands without the quotes of %q.
abbrev pub accept_parsed : String → Option String → Result Error String
accept_parsed id none = err (Error.wrapped id invalid_check_id)
accept_parsed id (some parsed) =
    if parsed == nil_uuid then err (Error.wrapped id invalid_check_id) else ok parsed

-- `canonical` is uuid.Parse of github.com/google/uuid followed by String.
unfoldable pub normalize_check_id : (String → Option String) → String → Result Error String
normalize_check_id canonical id =
    let trimmed = trim_space id in
    if trimmed == ""
    then err (Error.wrapped "missing value" invalid_check_id)
    else accept_parsed trimmed (canonical trimmed)

-- errors.Is(err, ErrInvalidCheckID)
unfoldable pub is_invalid_check_id : Error → Bool
is_invalid_check_id (Error.external message) = message == "store: invalid check id"
is_invalid_check_id (Error.wrapped message e) = is_invalid_check_id e
is_invalid_check_id _ = false
