-- ===== src/World/Returns.antt =====
-- What a method returns, whatever the world is: one rule for each way to build one.
use mathlib.Core.Path.{subst}
use bap_web.Prelude.{Bool, true, false, ◌≡◌, ◌∙◌, refl, sym}
use bap_web.Errors.{Error}
use bap_web.Store.Db.{Db}
use bap_web.World.{Env, World, M, Result, ok, pure, raise, try, refuse_if, ◌>>=◌}
use bap_web.World.Keeps.{Keeps, ok-injective}
use bap_web.World.Steps.{bind-eq-ok}

-- Whatever a method returns, and whatever the world is, is as `Q` says.
pub record Returns {A : Type 0} (Q : A → Type 0) (m : M A) : Type 0 where
  pub from : (w : World) (a : A) → (m w).0 ≡ ok a → Q a

module _ {A B : Type 0} {R : B → Type 0} where
  pub Returns-bind :
      {Q : A → Type 0} (m : M A) (f : A → M B)
      → Returns Q m
      → ((a : A) → Q a → Returns R (f a))
      → Returns R (m >>= f)
  Returns-bind m f q r = record {
    from = λ w b h. let (a, e, _, k) = bind-eq-ok m f w h in (r a (q.from w a e)).from (m w).1 b k;
  }

  -- What the last part of a sequence returns.
  pub Returns-last : (m : M A) (f : A → M B) → ((a : A) → Returns R (f a)) → Returns R (m >>= f)
  Returns-last m f r = record {
    from = λ w b h. let (a, _, _, k) = bind-eq-ok m f w h in (r a).from (m w).1 b k;
  }

module _ {A : Type 0} {Q : A → Type 0} where
  pub Returns-pure : (a : A) → Q a → Returns Q (pure a)
  unfolding ◌>>=◌
  Returns-pure a q = record { from = λ w b h. subst Q (ok-injective h) q }

  pub Returns-raise : (e : Error) → Returns Q (raise e)
  unfolding ◌>>=◌
  Returns-raise e = record { from = λ w b h. cc }

  pub Returns-try : (m : M A) → Returns Q m → Returns (λ r. (a : A) → r ≡ ok a → Q a) (try m)
  unfolding try
  Returns-try m q = record { from = λ w r h a e. q.from w a (ok-injective h ∙ e) }

module _ {A : Type 0} {R : A → Type 0} where
  -- What follows a refusal may rely on its test.
  pub Returns-refuse_if :
      (b : Bool) (e : Error) (n : Unit {0} → M A)
      → (b ≡ false → Returns R (n tt))
      → Returns R (refuse_if b e >>= n)
  unfolding ◌>>=◌ refuse_if
  Returns-refuse_if true e n r = record { from = λ w a h. cc }
  Returns-refuse_if false e n r = record { from = λ w a h. (r refl).from w a h }

-- What a method that succeeds returns and leaves, from a given world.
pub record Ends {A : Type 0} (Q : A → World → Type 0) (m : M A) (w : World) : Type 0 where
  pub ends : (a : A) → (m w).0 ≡ ok a → Q a (m w).1

module _ {A B : Type 0} {Q : B → World → Type 0} {d : Db} where
  -- A part of a sequence that only reads, with what answers the program: nothing changes that either.
  pub Ends-still :
      {env : Env} (m : M A) (f : A → M B) (w : World)
      → Keeps (λ x e. (x ≡ env) × (e ≡ d)) m
      → (w.env ≡ env) × (w.db ≡ d)
      → ((a : A) (v : World) → (m w).0 ≡ ok a → (v.env ≡ env) × (v.db ≡ d) → Ends Q (f a) v)
      → Ends Q (m >>= f) w
  Ends-still m f w kept same rest = record {
    ends = λ b h.
        let (a, e, first, k) = bind-eq-ok m f w h in
        subst (λ (x : Result B × World). Q b x.1) (sym first)
          ((rest a (m w).1 e (kept.at w same)).ends b k);
  }

  -- A part of a sequence that only reads: what follows starts from the same database.
  pub Ends-read :
      (m : M A) (f : A → M B) (w : World)
      → Keeps (λ _ e. e ≡ d) m
      → w.db ≡ d
      → ((a : A) (v : World) → (m w).0 ≡ ok a → v.db ≡ d → Ends Q (f a) v)
      → Ends Q (m >>= f) w
  Ends-read m f w kept same rest = record {
    ends = λ b h.
        let (a, e, first, k) = bind-eq-ok m f w h in
        subst (λ (x : Result B × World). Q b x.1) (sym first)
          ((rest a (m w).1 e (kept.at w same)).ends b k);
  }
