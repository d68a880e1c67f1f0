-- ===== src/Exec/Request/Checks.antt =====
-- What a request satisfies once it is normalized.
use bap_web.Prelude.{
  ℤ, pos, ◌≤◌, ◌≤ℤ◌, String, Bool, true, false, ◌||◌, List, [], ◌∷◌, ◌≡◌, ◌≢◌, refl, arith, All,
  if◌then◌else◌, ltb_ℤ, Bool-cases, inl, inr, eq_iff,
}
use bap_web.Text.{trim_space, byte_len}
use bap_web.Errors.{Error}
use mathlib.Core.Path.{subst}
use bap_web.World.Keeps.{ok-injective}
use bap_web.World.{Result, ok, err}
use bap_web.Exec.Request.{
  ExecRequest, check_env, is_env_name, has_nul, normalize_exec_request, with_env, is_unset,
}

abbrev pub EnvFits : String × String → Type 0
EnvFits p = (is_env_name p.0 ≡ true) × (has_nul p.1 ≡ false)

-- What the rest of the program relies on.
pub record Normal (r : ExecRequest) : Type 0 where
  pub some_command : r.command ≢ ""
  pub no_nul : has_nul r.command ≡ false
  pub least : pos 1 ≤ℤ r.timeout_seconds
  pub most : r.timeout_seconds ≤ℤ pos 900
  pub stdin_fits : byte_len r.stdin ≤ 1048576
  pub env_fits : All EnvFits r.env

check_env-EnvFits : (env : List (String × String)) → check_env env ≡ ok tt → All EnvFits env
unfolding check_env
check_env-EnvFits [] h = tt
check_env-EnvFits ((k, v) ∷ rest) h = elim (Bool-cases (is_env_name k)) [
  | inr bad ↦ absurd (ground arith)
  | inl good ↦ elim (Bool-cases (has_nul v)) [
    | inl nul ↦ absurd (ground arith)
    | inr clean ↦ ((good, clean), check_env-EnvFits rest (ground arith))
  ]
]

not_below : (t lo hi : ℤ) → (ltb_ℤ t lo || ltb_ℤ hi t) ≡ false → lo ≤ℤ t
not_below t lo hi h = ground arith

not_above : (t lo hi : ℤ) → (ltb_ℤ t lo || ltb_ℤ hi t) ≡ false → t ≤ℤ hi
not_above t lo hi h = ground arith

-- Four tests and a loop that have all passed.
passed :
    (a b c d : Bool) (x y z u : Error) (r r' : ExecRequest) (e : Result (Unit {0}))
    → (if a
        then err x
        else if b
        then err y
        else if c
        then err z
        else if d
        then err u
        else with_env r e)
      ≡ ok r'
    → (a ≡ false) × (b ≡ false) × (c ≡ false) × (d ≡ false) × (e ≡ ok tt) × (r ≡ r')
passed true b c d x y z u r r' e h = cc
passed false true c d x y z u r r' e h = cc
passed false false true d x y z u r r' e h = cc
passed false false false true x y z u r r' e h = cc
passed false false false false x y z u r r' (err f) h = cc
passed false false false false x y z u r r' (ok _) h =
    (refl, refl, refl, refl, refl, ok-injective h)

-- The request before its tests.
trimmed : ExecRequest → ExecRequest
trimmed req = record req {
  command = trim_space req.command;
  cwd = trim_space req.cwd;
  timeout_seconds = if is_unset req.timeout_seconds then pos 60 else req.timeout_seconds;
}

-- A request that is accepted has a command without NUL bytes, a timeout of 1 to 900 seconds, at most
-- 1 MiB of input, and variables whose names are identifiers and whose values have no NUL bytes.
pub normalize_exec_request-Normal :
    (req r : ExecRequest) → normalize_exec_request req ≡ ok r → Normal r
unfolding normalize_exec_request trimmed
normalize_exec_request-Normal req r h =
    let (empty, nul, time, input, env, same) =
      passed _ _ _ _ _ _ _ _ (trimmed req) r (check_env req.env) h in
    let fits = check_env-EnvFits req.env env in
    let t = (trimmed req).timeout_seconds in
    subst Normal same (record {
      some_command = λ e. ground (arith, eq_iff (trim_space req.command) "");
      no_nul = nul;
      least = not_below t (pos 1) (pos 900) time;
      most = not_above t (pos 1) (pos 900) time;
      stdin_fits = ground arith;
      env_fits = fits;
    })
