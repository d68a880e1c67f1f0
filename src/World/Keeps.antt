-- ===== src/World/Keeps.antt =====
-- What a method leaves true of the database, whether it returns or fails: one rule for each way to
-- build one.
use mathlib.Core.Path.{subst}
use bap_web.Prelude.{
  ℕ, String, List, ◌≡◌, refl, Bool, true, false, Option, none, some, if◌then◌else◌,
}
use bap_web.Errors.{Error}
use bap_web.Store.Db.{Db}
use bap_web.World.{
  Env, World, Action, Result, ok, err, M, continue, pure, raise, gets, or_raise, try, ◌>>=◌,
  attempt, quiet, refuse_if, when, statement, perform, output_of, run_in_guest, size_of, read_file,
  time_now, random_hex, modify,
}

pub ok-injective : {A : Type 0} {a b : A} → ok a ≡ ok b → a ≡ b
ok-injective e = cc

pub record Keeps {A : Type 0} (P : Env → Db → Type 0) (m : M A) : Type 0 where
  pub at : (w : World) → P w.env w.db → P (m w).1.env (m w).1.db

module _ {A : Type 0} {P : Env → Db → Type 0} where
  pub Keeps-pure : (value : A) → Keeps P (pure value)
  unfolding pure
  Keeps-pure value = record { at = λ w h. h }

  pub Keeps-raise : (e : Error) → Keeps P (raise {A = A} e)
  unfolding raise
  Keeps-raise e = record { at = λ w h. h }

  pub Keeps-gets : (view : World → A) → Keeps P (gets view)
  unfolding gets
  Keeps-gets view = record { at = λ w h. h }

  pub Keeps-or_raise : (o : Option A) (e : Error) → Keeps P (or_raise o e)
  unfolding or_raise
  Keeps-or_raise none e = record { at = λ w h. h }
  Keeps-or_raise (some a) e = record { at = λ w h. h }

  pub Keeps-try : (m : M A) → Keeps P m → Keeps P (try m)
  unfolding try
  Keeps-try m k = record { at = λ w h. k.at w h }

  pub Keeps-quiet : (m : M (Option A)) → Keeps P m → Keeps P (quiet m)
  unfolding quiet
  Keeps-quiet m k = record { at = λ w h. k.at w h }

  -- Both branches keep it.
  pub Keeps-if : (x y : M A) (test : Bool) → Keeps P x → Keeps P y → Keeps P (if test then x else y)
  Keeps-if x y true kx ky = kx
  Keeps-if x y false kx ky = ky

module _ {A B : Type 0} {P : Env → Db → Type 0} where
  pub Keeps-bind :
      (first : M A) (rest : A → M B)
      → Keeps P first
      → ((x : A) → Keeps P (rest x))
      → Keeps P (first >>= rest)
  unfolding ◌>>=◌
  Keeps-bind first rest kept later = record {
    at = λ w h. after (first w).0 (first w).1 (kept.at w h);
  }
    where
      after :
          (answer : Result A) (v : World)
          → P v.env v.db
          → P (continue answer rest v).1.env (continue answer rest v).1.db
      after (ok x) v h = (later x).at v h
      after (err e) v h = h

-- What holds of the value that a method returns, in a database where `P` holds.
pub record Gives {A : Type 0} (P : Env → Db → Type 0) (Q : A → Type 0) (m : M A) : Type 0 where
  pub gives : (w : World) → P w.env w.db → (a : A) → (m w).0 ≡ ok a → Q a

module _ {A B : Type 0} {P : Env → Db → Type 0} {Q : A → Type 0} where
  -- A method goes on from a value of which something is known.
  pub Keeps-after :
      (m : M A) (f : A → M B)
      → Keeps P m
      → Gives P Q m
      → ((a : A) → Q a → Keeps P (f a))
      → Keeps P (m >>= f)
  unfolding ◌>>=◌
  Keeps-after m f km g kf = record { at = λ w h. step (m w).0 (m w).1 (g.gives w h) (km.at w h) }
    where
      step :
          (r : Result A) (w' : World)
          → ((a : A) → r ≡ ok a → Q a)
          → P w'.env w'.db
          → P (continue r f w').1.env (continue r f w').1.db
      step (ok a) w' q h = (kf a (q a refl)).at w' h
      step (err e) w' q h = h

module _ {B : Type 0} {P : Env → Db → Type 0} {Q : B → Type 0} where
  pub Gives-pure : (b : B) → Q b → Gives P Q (pure b)
  unfolding pure
  Gives-pure b q = record { gives = λ w h c e. subst Q (ok-injective e) q }

  pub Gives-if : (c : Bool) (m n : M B) → Gives P Q m → Gives P Q n → Gives P Q (if c then m else n)
  Gives-if true m n gm gn = gm
  Gives-if false m n gm gn = gn

module _ {A B : Type 0} {P : Env → Db → Type 0} {Q : B → Type 0} where
  -- What the last part of a sequence gives.
  pub Gives-bind :
      (m : M A) (f : A → M B) → Keeps P m → ((a : A) → Gives P Q (f a)) → Gives P Q (m >>= f)
  unfolding ◌>>=◌
  Gives-bind m f km gf = record { gives = λ w h. step (m w).0 (m w).1 (km.at w h) }
    where
      step :
          (r : Result A) (w' : World) → P w'.env w'.db → (b : B) → (continue r f w').0 ≡ ok b → Q b
      step (ok a) w' h b k = (gf a).gives w' h b k
      step (err e) w' h b k = cc

module _ {P : Env → Db → Type 0} where
  pub Keeps-attempt : (m : M (Unit {0})) → Keeps P m → Keeps P (attempt m)
  unfolding attempt
  Keeps-attempt m k = record { at = λ w h. k.at w h }

  pub Keeps-refuse_if : (b : Bool) (e : Error) → Keeps P (refuse_if b e)
  unfolding refuse_if
  Keeps-refuse_if true e = record { at = λ w h. h }
  Keeps-refuse_if false e = record { at = λ w h. h }

  pub Keeps-when : (b : Bool) (m : M (Unit {0})) → Keeps P m → Keeps P (when b m)
  unfolding when
  Keeps-when true m k = k
  Keeps-when false m k = record { at = λ w h. h }

  pub Keeps-statement : Keeps P statement
  unfolding statement
  Keeps-statement = record { at = λ w h. h }

  pub Keeps-perform : (a : Action) → Keeps P (perform a)
  unfolding perform
  Keeps-perform a = record { at = λ w h. h }

  pub Keeps-output_of : (words : List String) → Keeps P (output_of words)
  unfolding output_of
  Keeps-output_of words = record { at = λ w h. h }

  pub Keeps-run_in_guest : (user ip command : String) → Keeps P (run_in_guest user ip command)
  unfolding run_in_guest
  Keeps-run_in_guest user ip command = record { at = λ w h. h }

  pub Keeps-size_of : (path : String) → Keeps P (size_of path)
  unfolding size_of
  Keeps-size_of path = record { at = λ w h. h }

  pub Keeps-read_file : (path : String) → Keeps P (read_file path)
  unfolding read_file
  Keeps-read_file path = record { at = λ w h. h }

  pub Keeps-time_now : Keeps P time_now
  unfolding time_now
  Keeps-time_now = record { at = λ w h. h }

  pub Keeps-random_hex : (bytes : ℕ) → Keeps P (random_hex bytes)
  unfolding random_hex
  Keeps-random_hex bytes = record { at = λ w h. h }

  pub Keeps-modify :
      (f : Db → Db) → ((env : Env) (d : Db) → P env d → P env (f d)) → Keeps P (modify f)
  unfolding modify
  Keeps-modify f k = record { at = λ w h. k w.env w.db h }

pub ruleset keeps_rules = (
  Keeps-pure, Keeps-raise, Keeps-gets, Keeps-or_raise, Keeps-try, Keeps-quiet, Keeps-if, Keeps-bind,
  Keeps-attempt, Keeps-refuse_if, Keeps-when, Keeps-statement, Keeps-perform, Keeps-output_of,
  Keeps-run_in_guest, Keeps-size_of, Keeps-read_file, Keeps-time_now, Keeps-random_hex,
)
