-- ===== src/Auth/Session/Setup.antt =====
-- The initial setup runs once.
use bap_web.Prelude.{
  String, Bool, true, false, List, [], ◌∷◌, ◌≡◌, ◌≢◌, refl, ltb, length, arith, ◌∙◌,
}
use bap_web.Model.{User}
use bap_web.Store.Access.{has_users}
use bap_web.World.{World, Result, ok, err, ◌>>=◌, statement}
use bap_web.Auth.Request.{Origin}
use bap_web.Auth.Session.{Bcrypt, setup_form, setup_post}

counted : (us : List User) → us ≢ [] → ltb 0 (length us) ≡ true
counted [] h = absurd (h refl)
counted (u ∷ us) h = ground arith

has_users-read :
    (w : World) → w.db.users ≢ [] → ((has_users w).0 ≢ ok false) × ((has_users w).1.db ≡ w.db)
unfolding has_users ◌>>=◌ statement
has_users-read w h = let c = counted w.db.users h in ((λ e. ground arith), ground arith)

setup_form-quiet :
    (b : Bcrypt) (o : Origin) (name password : String) (has : Result Bool) (w : World)
    → has ≢ ok false
    → (setup_form b o name password has w).1.db ≡ w.db
unfolding ◌>>=◌
setup_form-quiet b o name password (err e) w h = refl
setup_form-quiet b o name password (ok true) w h = refl
setup_form-quiet b o name password (ok false) w h = absurd (h refl)

-- Where there is a user, the setup of the first admin writes nothing, whatever is sent.
pub setup_post-once :
    (b : Bcrypt) (o : Origin) (name password : String) (w : World)
    → w.db.users ≢ []
    → (setup_post b o name password w).1.db ≡ w.db
unfolding setup_post ◌>>=◌
setup_post-once b o name password w h =
    let (some_user, same) = has_users-read w h in
    setup_form-quiet b o name password (has_users w).0 (has_users w).1 some_user ∙ same
