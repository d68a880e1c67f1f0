-- ===== src/World/Steps.antt =====
-- Taking a method apart: what the success of a sequence says of its parts.
use bap_web.Prelude.{Bool, true, false, Option, none, some, ◌≡◌, refl, ap, ◌⊎◌, inl, inr}
use bap_web.Errors.{Error}
use bap_web.World.{World, Result, ok, err, M, continue, ◌>>=◌, or_raise, refuse_if}
use bap_web.World.Keeps.{ok-injective}

module _ {A : Type 0} where
  -- A value that is there is returned, and nothing else happens.
  pub or_raise-read :
      (o : Option A) (e : Error) (w : World) (a : A)
      → (or_raise o e w).0 ≡ ok a
      → (o ≡ some a) × ((or_raise o e w).1 ≡ w)
  unfolding ◌>>=◌
  or_raise-read none e w a h = cc
  or_raise-read (some x) e w a h = (ap some (ok-injective h), refl)

pub refuse_if-passed : (b : Bool) (e : Error) (w : World) → (refuse_if b e w).0 ≡ ok tt → b ≡ false
unfolding refuse_if
refuse_if-passed true e w h = cc
refuse_if-passed false e w h = refl

pub refuse_if-read :
    (b : Bool) (e : Error) (w : World) → (refuse_if b e w).0 ≡ ok tt → (refuse_if b e w).1 ≡ w
unfolding refuse_if
refuse_if-read true e w h = cc
refuse_if-read false e w h = refl

pub err-injective : {A : Type 0} {r : Result A} {a b : Error} → r ≡ err a → r ≡ err b → a ≡ b
err-injective h e = cc

module _ {A B : Type 0} where
  continue-eq-ok :
      (r : Result A) (f : A → M B) (w : World) {b : B}
      → (continue r f w).0 ≡ ok b
      → (a : A) × (r ≡ ok a) × (continue r f w ≡ f a w) × ((f a w).0 ≡ ok b)
  continue-eq-ok (ok a) f w h = (a, refl, refl, h)
  continue-eq-ok (err e) f w h = cc

  pub bind-eq-ok :
      (m : M A) (f : A → M B) (w : World) {b : B}
      → ((m >>= f) w).0 ≡ ok b
      → (a : A) × ((m w).0 ≡ ok a) × ((m >>= f) w ≡ f a (m w).1) × ((f a (m w).1).0 ≡ ok b)
  unfolding ◌>>=◌
  bind-eq-ok m f w h = continue-eq-ok (m w).0 f (m w).1 h

  continue-eq-err :
      (r : Result A) (f : A → M B) (w : World) {e : Error}
      → (continue r f w).0 ≡ err e
      → ((r ≡ err e) × (continue r f w ≡ (err e, w)))
        ⊎ ((a : A) × (r ≡ ok a) × (continue r f w ≡ f a w) × ((f a w).0 ≡ err e))
  continue-eq-err (ok a) f w h = inr (a, refl, refl, h)
  continue-eq-err (err e) f w h =
      inl (ap err (err-injective refl h), ap (λ (r : Result B). (r, w)) h)

  -- A sequence that fails has failed in its first part, or in what follows.
  pub bind-eq-err :
      (m : M A) (f : A → M B) (w : World) {e : Error}
      → ((m >>= f) w).0 ≡ err e
      → (((m w).0 ≡ err e) × ((m >>= f) w ≡ (err e, (m w).1)))
        ⊎ ((a : A) × ((m w).0 ≡ ok a) × ((m >>= f) w ≡ f a (m w).1) × ((f a (m w).1).0 ≡ err e))
  unfolding ◌>>=◌
  bind-eq-err m f w h = continue-eq-err (m w).0 f (m w).1 h
