-- ===== src/Exec/Shell.antt =====
-- `shellQuote`, `shellEnv` and `buildRemoteExecCommand` of internal/lifecycle/service.go: the command
-- line that the guest's shell gets.
pub mod Reader
pub mod Words
pub mod Line
use Prim.Native.Char.{code}
use Prim.Native.String
use Prim.Native.String.{compare}
use bap_web.Prelude.{
  String, Bool, true, false, not, List, [], ◌∷◌, ◌++◌, ◌==◌, ◌=?◌, map, if◌then◌else◌,
}
use bap_web.Text.{join, concat}
use text.Mathlib.Text.{is_lt}
use bap_web.Exec.Request.{ExecRequest}
use bap_web.Store.Table.{order_by}

-- `shellQuote`: every quote becomes a quote, a backslash, a quote and a quote.
unfoldable pub shell_quote : String → String
shell_quote String.[] = ""
shell_quote (String.◌∷◌ c s) =
    let rest = shell_quote s in
    if code c == 39
    then String.◌∷◌ "'" (String.◌∷◌ "\\" (String.◌∷◌ "'" (String.◌∷◌ "'" rest)))
    else String.◌∷◌ c rest

-- `shellEnv`
unfoldable pub shell_env : String → String
shell_env s = concat ("'" ∷ shell_quote s ∷ "'" ∷ [])

-- The order of `sort.Strings` on the names.
abbrev pub name_before : String × String → String × String → Bool
name_before a b = is_lt (compare a.0 b.0)

-- One assignment of a variable.
abbrev pub assignment : String × String → String
assignment p = concat (p.0 ∷ "=" ∷ shell_env p.1 ∷ [])

-- The command with the variables that it is given.
abbrev pub with_variables : List String → String → String
with_variables [] command = command
with_variables (p ∷ ps) command = concat ("env " ∷ join " " (p ∷ ps) ∷ " " ∷ command ∷ [])

-- `buildRemoteExecCommand`
unfoldable pub build_remote_exec_command : ExecRequest → String
build_remote_exec_command req =
    let env_parts = map assignment (order_by name_before req.env) in
    let command = with_variables env_parts (concat ("sh -lc " ∷ shell_env req.command ∷ [])) in
    if req.cwd =? ""
    then command
    else join " && " (concat ("cd " ∷ shell_env req.cwd ∷ []) ∷ command ∷ [])
