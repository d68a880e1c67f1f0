-- ===== src/Errors.antt =====
-- Errors as values: DomainError of internal/lifecycle/service.go, appHTTPError of
-- internal/app/app.go, and any other Go error by its text.
use bap_web.Prelude.{ℕ, String, List, [], ◌||◌, if◌then◌else◌}
use bap_web.Text.{contains, to_lower}

pub data ErrorCode : Type 0 where
  code_invalid code_not_found code_conflict code_unusable code_internal : ErrorCode

abbrev pub Fields : Type 0
Fields = List (String × String)

pub data Error : Type 0 where
  domain : ErrorCode → String → Fields → Error
  app_http : ℕ → String → String → Fields → Error
  plain : String → Error

-- `err.Error()`
abbrev pub message : Error → String
message (Error.domain code text fields) = text
message (Error.app_http status code text fields) = text
message (Error.plain text) = text

-- The constructors of service.go.
abbrev pub invalid : String → Fields → Error
invalid text fields = Error.domain ErrorCode.code_invalid text fields

abbrev pub not_found : String → Error
not_found text = Error.domain ErrorCode.code_not_found text []

abbrev pub conflict : String → Error
conflict text = Error.domain ErrorCode.code_conflict text []

abbrev pub conflict_fields : String → Fields → Error
conflict_fields text fields = Error.domain ErrorCode.code_conflict text fields

abbrev pub unprocessable : String → Fields → Error
unprocessable text fields = Error.domain ErrorCode.code_unusable text fields

-- `forbidden` of app.go.
abbrev pub forbidden : String → Error
forbidden text = Error.app_http 403 "forbidden" text []

abbrev code_text : ErrorCode → String
code_text ErrorCode.code_invalid = "invalid"
code_text ErrorCode.code_not_found = "not_found"
code_text ErrorCode.code_conflict = "conflict"
code_text ErrorCode.code_unusable = "unprocessable"
code_text ErrorCode.code_internal = "internal"

abbrev status_of : ErrorCode → ℕ
status_of ErrorCode.code_invalid = 400
status_of ErrorCode.code_not_found = 404
status_of ErrorCode.code_conflict = 409
status_of ErrorCode.code_unusable = 422
status_of ErrorCode.code_internal = 500

-- The texts by which `classifyError` sorts an error that is no DomainError.
classify_text : String → ℕ × String × Fields
classify_text text =
    let msg = to_lower text in
    if contains msg "not found" || contains msg "does not exist"
    then (404, "not_found", [])
    else if contains msg "unique constraint"
        || contains msg "already exists"
        || contains msg "already in use"
        || contains msg "assigned to"
    then (409, "conflict", [])
    else if contains msg "required"
        || contains msg "must "
        || contains msg "invalid"
        || contains msg "outside"
    then (400, "invalid", [])
    else (500, "internal", [])

-- `classifyError` of app.go: the HTTP status, the code and the fields of the JSON answer.
pub classify_error : Error → ℕ × String × Fields
unfolding classify_text
classify_error (Error.app_http status code text fields) = (status, code, fields)
classify_error (Error.domain code text fields) = (status_of code, code_text code, fields)
classify_error (Error.plain text) = classify_text text
