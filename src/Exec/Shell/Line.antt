-- ===== src/Exec/Shell/Line.antt =====
-- The whole command line, as the guest's shell reads it.
use Prim.Native.String
use mathlib.Core.Option
use mathlib.Core.Path.{subst}
use text.Mathlib.TextLemmas.{append_assoc, append-nil, nil-append, cons-append}
use bap_web.Prelude.{
  String, none, some, List, [], ◌∷◌, ◌++◌, ◌≡◌, ◌∙◌, sym, refl, ap, map, All, Bool-cases, inl, inr,
  ◌=?◌, any, if◌then◌else◌,
}
use bap_web.Text.{concat, join}
use bap_web.Exec.Request.{ExecRequest}
use bap_web.Exec.Shell.{shell_env, assignment, build_remote_exec_command}
use bap_web.Exec.Shell.Reader.{
  Token, word, and_if, between, inside, extend, opened, add, read, tokens, classify,
}
use bap_web.Exec.Shell.Words.{
  Reads, Reads-word, Reads-append, assignments-Reads, Named, settings, env-between, setting,
}
use bap_web.Exec.Shell.{with_variables, name_before}
use bap_web.Store.Table.{order_by}
use bap_web.Store.Table.Order.{order_by-All}
use bap_web.Exec.Request.Checks.{EnvFits}

cd-Reads : Reads "cd " (word "cd" ∷ [])
unfolding read classify any
cd-Reads rest =
    rw (cons-append, cons-append, cons-append, nil-append)
      (elim (read between rest)
        as (λ r. opened (extend "c" (extend "d" (add [] r))) ≡ add (word "cd" ∷ []) r) [
          | none ↦ refl
          | some p ↦ refl
        ])

env-Reads : Reads "env " (word "env" ∷ [])
unfolding read classify any
env-Reads rest =
    rw (cons-append, cons-append, cons-append, cons-append, nil-append)
      (elim (read between rest)
        as (λ r.
          opened (extend "e" (extend "n" (extend "v" (add [] r)))) ≡ add (word "env" ∷ []) r) [
            | none ↦ refl
            | some p ↦ refl
          ])

sh-Reads : Reads "sh " (word "sh" ∷ [])
unfolding read classify any
sh-Reads rest =
    rw (cons-append, cons-append, cons-append, nil-append)
      (elim (read between rest)
        as (λ r. opened (extend "s" (extend "h" (add [] r))) ≡ add (word "sh" ∷ []) r) [
          | none ↦ refl
          | some p ↦ refl
        ])

lc-Reads : Reads "-lc " (word "-lc" ∷ [])
unfolding read classify any
lc-Reads rest =
    rw (cons-append, cons-append, cons-append, cons-append, nil-append)
      (elim (read between rest)
        as (λ r.
          opened (extend "-" (extend "l" (extend "c" (add [] r)))) ≡ add (word "-lc" ∷ []) r) [
            | none ↦ refl
            | some p ↦ refl
          ])

and-Reads : Reads "&& " (and_if ∷ [])
unfolding read classify any
and-Reads rest = rw (cons-append, cons-append, cons-append, nil-append) refl

-- What the guest is asked to run, as the shell's tokens.
abbrev pub change_dir : String → List Token
change_dir cwd = if cwd =? "" then [] else word "cd" ∷ word cwd ∷ and_if ∷ []

abbrev pub environment : List (String × String) → List Token
environment [] = []
environment (p ∷ ps) = word "env" ∷ map (λ q. word (setting q)) (p ∷ ps)

shell_command : String → String
shell_command command = String.◌++◌ "sh " (String.◌++◌ "-lc " (shell_env command))

-- A command line read to its end: text that is followed by blanks, and one last quoted text.
Line : String → List Token → Type 0
Line t ts = read between t ≡ some ("", ts)

Reads-Line :
    (s t : String) (ts us : List Token) → Reads s ts → Line t us → Line (String.◌++◌ s t) (ts ++ us)
unfolding Line
Reads-Line s t ts us h k = h t ∙ ap (add ts) k

ended_line : (s : String) → opened (extend s (read inside "")) ≡ some ("", word s ∷ [])
unfolding read
ended_line s = rw append-nil refl

last-Line : (s : String) → Line (shell_env s) (word s ∷ [])
unfolding Line
last-Line s = ap (read between) (sym (append-nil (shell_env s))) ∙ env-between s "" ∙ ended_line s

sh-Line :
    (command : String)
    → Line
        (concat ("sh -lc " ∷ shell_env command ∷ []))
        (word "sh" ∷ word "-lc" ∷ word command ∷ [])
unfolding concat
sh-Line command =
    subst (λ t. Line t (word "sh" ∷ word "-lc" ∷ word command ∷ [])) (simp append-nil)
      (Reads-Line (String.◌++◌ "sh " "-lc ") (shell_env command) (word "sh" ∷ word "-lc" ∷ [])
        (word command ∷ [])
        (Reads-append "sh " "-lc " (word "sh" ∷ []) (word "-lc" ∷ []) sh-Reads lc-Reads)
        (last-Line command))

variables-Line :
    (ps : List (String × String)) (command : String) (ts : List Token)
    → All Named ps
    → Line command ts
    → Line (with_variables (map assignment ps) command) (environment ps ++ ts)
unfolding concat
variables-Line [] command ts _ h = h
variables-Line (p ∷ ps) command ts named h =
    let variables = String.◌++◌ (join " " (map assignment (p ∷ ps))) " " in
    subst (λ t. Line t (environment (p ∷ ps) ++ ts)) (simp (append_assoc, append-nil))
      (Reads-Line "env " (String.◌++◌ variables command) (word "env" ∷ []) (settings (p ∷ ps) ++ ts)
        env-Reads
        (Reads-Line variables command (settings (p ∷ ps)) ts (assignments-Reads p ps named) h))

-- A quoted directory, then the operator.
dir-Reads : (cwd : String) → Reads (String.◌++◌ (shell_env cwd) " ") (word cwd ∷ [])
dir-Reads cwd = Reads-word (shell_env cwd) cwd (env-between cwd)

spaces :
    (cwd command : String)
    → String.◌++◌ "cd " (String.◌++◌ (String.◌++◌ (shell_env cwd) " ") (String.◌++◌ "&& " command))
      ≡ join " && " (concat ("cd " ∷ shell_env cwd ∷ []) ∷ command ∷ [])
unfolding concat join
spaces cwd command =
    let e : String.◌++◌ " " (String.◌++◌ "&& " command) ≡ String.◌++◌ " && " command =
      sym (append_assoc " " "&& " command) in
    simp (append_assoc, append-nil) (ap (λ t. String.◌++◌ "cd " (String.◌++◌ (shell_env cwd) t)) e)

cd-Line :
    (cwd command : String) (ts : List Token)
    → Line command ts
    → Line
        (join " && " (concat ("cd " ∷ shell_env cwd ∷ []) ∷ command ∷ []))
        (word "cd" ∷ word cwd ∷ and_if ∷ ts)
unfolding concat join
cd-Line cwd command ts h =
    let there = String.◌++◌ (shell_env cwd) " " in
    subst (λ t. Line t (word "cd" ∷ word cwd ∷ and_if ∷ ts)) (spaces cwd command)
      (Reads-Line "cd " (String.◌++◌ there (String.◌++◌ "&& " command)) (word "cd" ∷ [])
        (word cwd ∷ and_if ∷ ts) cd-Reads
        (Reads-Line there (String.◌++◌ "&& " command) (word cwd ∷ []) (and_if ∷ ts) (dir-Reads cwd)
          (Reads-Line "&& " command (and_if ∷ []) ts and-Reads h)))

named : (ps : List (String × String)) → All EnvFits ps → All Named ps
named [] h = tt
named (p ∷ ps) ((n, _), h) = (n, named ps h)

-- Where the variables of a request have names that are accepted, the guest's shell reads its command
-- line as these words and no others, whatever characters the directory, the values and the command
-- have: a change to the directory, if there is one, and then `sh -lc` with the command as one word,
-- with the variables, if there are any, set by `env`.
pub build_remote_exec_command-tokens :
    (req : ExecRequest)
    → All EnvFits req.env
    → tokens (build_remote_exec_command req)
      ≡ some (
          change_dir req.cwd
          ++ (environment (order_by name_before req.env)
              ++ word "sh" ∷ word "-lc" ∷ word req.command ∷ []))
unfolding build_remote_exec_command tokens Line
build_remote_exec_command-tokens req h =
    let sorted = order_by name_before req.env in
    let body =
      variables-Line sorted (concat ("sh -lc " ∷ shell_env req.command ∷ [])) _
        (named sorted (order_by-All EnvFits name_before req.env h)) (sh-Line req.command) in
    elim (Bool-cases (req.cwd =? "")) [
      | inl here ↦ rw here (ap (Option.map (λ p. p.1)) body)
      | inr there ↦ rw there (ap (Option.map (λ p. p.1)) (cd-Line req.cwd _ _ body))
    ]
