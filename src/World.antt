-- ===== src/World.antt =====
-- What a method of the server acts on: the database, and the host that it commands. A method maps
-- a world to a result and the next world, and what was written before an error stays written.
-- `Env` answers for everything outside the program. Each interaction is numbered, and each answer
-- may depend on the number, so the clock moves on, a statement or a command may fail at any time,
-- and other programs may change what a command finds.
pub mod Keeps
pub mod Steps
pub mod Returns
use bap_web.Prelude.{ℕ, ℤ, suc, String, Bool, true, false, Option, none, some, List, [], ◌∷◌, ◌++◌}
use bap_web.Errors.{Error}
use bap_web.Store.Db.{Db}

-- A value in the body of a request to Firecracker.
pub data Json : Type 0 where
  text : String → Json
  number : ℤ → Json
  boolean : Bool → Json

-- A call of the operating system or of the Firecracker API.
pub data Action : Type 0 where
  run : List String → Action  -- `run` and `exec.Command(…).Run` with these words
  shell : String → Action  -- `runShell`
  start : List String → Action  -- `exec.Command(…).Start`
  listen : ℕ → Action  -- `net.Listen` on a local TCP port
  stat : String → Action  -- `requireFile` of a path
  stat_socket : String → Action  -- a socket appears at the path before the deadline
  mkdir_all remove remove_all : String → Action
  create : String → Action  -- `os.OpenFile` for writing
  write append : String → String → Action  -- `os.WriteFile`, and a write at the end of a file
  truncate : String → ℤ → Action  -- `os.Truncate`
  put : String → String → List (String × Json) → Action  -- a PUT on a Firecracker socket
  wait : ℕ → Action  -- `time.After` of so many nanoseconds, unless the context is done before
  guest : String → String → String → Action  -- `session.Run` as a user, at an address, of a command

pub data Result {ℓ} (A : Type ℓ) : Type ℓ where
  ok : A → Result A
  err : Error → Result A

-- How the run of a command in the guest ended: without an error, with an `ssh.ExitError`, or with any
-- other error.
pub data GuestExit : Type 0 where
  clean : GuestExit
  status : ℤ → GuestExit
  broken : GuestExit

-- What a run in the guest wrote, in its writes, and how it ended.
pub record GuestRun : Type 0 where
  pub stdout_writes : List (List ℕ)
  pub stderr_writes : List (List ℕ)
  pub exit : GuestExit
  pub timed_out : Bool

pub record Env : Type 0 where
  pub clock : ℕ → ℕ
  pub sql : ℕ → Option Error
  pub outcome : ℕ → Action → Option Error
  pub output : ℕ → List String → Result String  -- what a command prints, also where it fails
  pub guest : ℕ → String → String → String → Result GuestRun  -- a connection may fail
  pub file_size : ℕ → String → Result (Option ℕ)  -- `os.Stat`: there may be no such file
  pub file_text : ℕ → String → Result String  -- `os.ReadFile`
  pub hex : ℕ → ℕ → String
  pub created_before : ℕ → ℕ → Bool  -- how ORDER BY compares two stored times
  pub sha256_hex : String → String
  pub parse_time : String → Option ℕ  -- `time.Parse(time.RFC3339, …)`

pub record World : Type 0 where
  pub env : Env
  pub step : ℕ
  pub db : Db
  pub performed : List Action  -- what the host was told to do, oldest first

abbrev pub M : Type 0 → Type 0
M A = World → Result A × World

module _ {A : Type 0} where
  pub pure : A → M A
  pure a w = (ok a, w)

  pub raise : Error → M A
  raise e w = (err e, w)

  pub gets : (World → A) → M A
  gets f w = (ok (f w), w)

  pub or_raise : Option A → Error → M A
  or_raise none e w = (err e, w)
  or_raise (some a) e w = (ok a, w)

  -- The call's error as a value: `err` in `x, err := f()`.
  unfoldable pub try : M A → M (Result A)
  try m w = let (r, w') = m w in (ok r, w')

module _ {A B : Type 0} where
  abbrev pub continue : Result A → (A → M B) → M B
  continue (ok a) f w = f a w
  continue (err e) f w = (err e, w)

  infixl 10 ◌>>=◌ ◌>>◌
  unfoldable pub ◌>>=◌ : M A → (A → M B) → M B
  unfolding pure raise gets or_raise try
  ◌>>=◌ m f w = let (r, w') = m w in continue r f w'

  abbrev pub ◌>>◌ : M A → M B → M B
  m >> n = m >>= λ _. n

-- `_ = f()`: the error is dropped.
unfoldable pub attempt : M (Unit {0}) → M (Unit {0})
attempt m w = let (_, w') = m w in (ok tt, w')

-- `if test { return err }`
unfoldable pub refuse_if : Bool → Error → M (Unit {0})
refuse_if true e w = (err e, w)
refuse_if false e w = (ok tt, w)

-- `if test { m }`
unfoldable pub when : Bool → M (Unit {0}) → M (Unit {0})
when true m = m
when false m = λ w. (ok tt, w)

-- A query whose error counts as a missing row.
unfoldable pub quiet : {A : Type 0} → M (Option A) → M (Option A)
quiet m w = let (r, w') = m w in (elim r [ ok o ↦ ok o | err e ↦ ok none ], w')

abbrev answer : Option Error → Result (Unit {0})
answer none = ok tt
answer (some e) = err e

-- One SQL statement is sent; the driver may report an error of its own.
unfoldable pub statement : M (Unit {0})
statement w = (answer (w.env.sql w.step), record w { step = suc w.step })

-- One command for the host.
unfoldable pub perform : Action → M (Unit {0})
perform a w = (
  answer (w.env.outcome w.step a),
  record w { step = suc w.step; performed = w.performed ++ a ∷ [] },
)

-- A command whose output is read.
unfoldable pub output_of : List String → M String
output_of words w = (
  w.env.output w.step words,
  record w { step = suc w.step; performed = w.performed ++ Action.run words ∷ [] },
)

-- A command for the guest, over a new connection.
unfoldable pub run_in_guest : String → String → String → M GuestRun
run_in_guest user ip command w = (
  w.env.guest w.step user ip command,
  record w { step = suc w.step; performed = w.performed ++ Action.guest user ip command ∷ [] },
)

-- The size of a file, if there is one.
unfoldable pub size_of : String → M (Option ℕ)
size_of path w = (w.env.file_size w.step path, record w { step = suc w.step })

unfoldable pub read_file : String → M String
read_file path w = (w.env.file_text w.step path, record w { step = suc w.step })

-- `time.Now()`
unfoldable pub time_now : M ℕ
time_now w = (ok (w.env.clock w.step), record w { step = suc w.step })

-- `random.Hex` of internal/random/random.go; running out of randomness ends the program there.
unfoldable pub random_hex : ℕ → M String
random_hex bytes w = (ok (w.env.hex w.step bytes), record w { step = suc w.step })

unfoldable pub modify : (Db → Db) → M (Unit {0})
modify f w = (ok tt, record w { db = f w.db })
