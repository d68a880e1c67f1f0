-- ===== src/Exec/Request.antt =====
-- `VMExecRequest` and `normalizeVMExecRequest` of internal/lifecycle/service.go.
pub mod Checks
use Prim.Native.Char.{code}
use Prim.Native.String
use bap_web.Prelude.{
  ℕ, ℤ, pos, String, Bool, true, false, not, ◌&&◌, ◌||◌, List, [], ◌∷◌, ◌==◌, ◌=?◌, ltb, ltb_ℤ, leb,
  if◌then◌else◌,
}
use bap_web.Text.{trim_space, byte_len, contains_any, concat}
use bap_web.Errors.{Error, invalid}
use bap_web.World.{Result, ok, err}

-- `env` is Go's map in the order in which a loop visits it.
pub record ExecRequest : Type 0 where
  pub command : String
  pub timeout_seconds : ℤ
  pub cwd : String
  pub env : List (String × String)
  pub stdin : String
  pub pty : Bool

abbrev pub max_exec_timeout_seconds : ℕ
max_exec_timeout_seconds = 900

abbrev pub max_exec_stdin_bytes : ℕ
max_exec_stdin_bytes = 1048576

unfoldable pub is_letter : ℕ → Bool
is_letter c = leb 65 c && leb c 90 || leb 97 c && leb c 122 || c == 95

unfoldable pub is_name_tail : String → Bool
unfolding is_letter
is_name_tail String.[] = true
is_name_tail (String.◌∷◌ c s) =
    (is_letter (code c) || leb 48 (code c) && leb (code c) 57) && is_name_tail s

-- `vmExecEnvNameRe`: a letter or an underscore, then letters, underscores and digits.
unfoldable pub is_env_name : String → Bool
unfolding is_name_tail is_letter
is_env_name String.[] = false
is_env_name (String.◌∷◌ c s) = is_letter (code c) && is_name_tail s

abbrev pub has_nul : String → Bool
has_nul s = contains_any s (0 ∷ [])

-- The loop over `req.Env`: the first refusal, if there is one.
unfoldable pub check_env : List (String × String) → Result (Unit {0})
check_env [] = ok tt
check_env ((name, value) ∷ rest) =
    let others = check_env rest in
    if not (is_env_name name)
    then err (invalid "Environment variable name is invalid" (("env", name) ∷ []))
    else if has_nul value
    then err (
        invalid "Environment variable value is invalid"
          (("env", concat (name ∷ " must not contain NUL bytes" ∷ [])) ∷ []))
    else others

abbrev pub is_unset : ℤ → Bool
is_unset (pos n) = n == 0
is_unset _ = false

abbrev pub with_env : ExecRequest → Result (Unit {0}) → Result ExecRequest
with_env r (ok _) = ok r
with_env r (err e) = err e

-- `normalizeVMExecRequest`
unfoldable pub normalize_exec_request : ExecRequest → Result ExecRequest
normalize_exec_request req =
    let command = trim_space req.command in
    let timeout : ℤ = if is_unset req.timeout_seconds then pos 60 else req.timeout_seconds in
    let r : ExecRequest = record req {
      command = command;
      cwd = trim_space req.cwd;
      timeout_seconds = timeout;
    } in
    if command =? ""
    then err (invalid "Command is required" (("command", "required") ∷ []))
    else if has_nul command
    then err (invalid "Command is invalid" (("command", "must not contain NUL bytes") ∷ []))
    else if ltb_ℤ timeout (pos 1) || ltb_ℤ (pos max_exec_timeout_seconds) timeout
    then err (invalid "Timeout is invalid" (("timeout_seconds", "must be between 1 and 900") ∷ []))
    else if ltb max_exec_stdin_bytes (byte_len req.stdin)
    then err (invalid "Stdin is too large" (("stdin", "must be at most 1048576 bytes") ∷ []))
    else with_env r (check_env req.env)
