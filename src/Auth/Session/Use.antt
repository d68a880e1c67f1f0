-- ===== src/Auth/Session/Use.antt =====
-- What a session cookie that is accepted shows.
use bap_web.Prelude.{
  ℕ, suc, ◌-◌, ◌≤◌, String, Option, none, some, ◌≡◌, ◌=?◌, find, inl, inr, arith, Option-cases,
}
use bap_web.Model.{User, Session}
use bap_web.Store.Db.{Db}
use bap_web.Store.Access.{session_by_id, user_by_id, delete_session}
use bap_web.World.{World, ok, ◌>>=◌, statement, time_now, attempt, quiet, modify}
use bap_web.Auth.Request.{Security}
use bap_web.Auth.Session.{current_user, admit}
use bap_web.Auth.Token.Use.{user_with}

abbrev pub session_row : Db → String → Option Session
session_row d id = find (λ r. r.id =? id) d.sessions

-- The session is that of the user, and at that time it is within both of its limits.
pub record Opens (sec : Security) (d : Db) (now : ℕ) (sess : Session) (u : User) : Type 0 where
  pub within_idle : now ≤ sess.expires_at
  pub within_absolute : now - sess.created_at ≤ sec.session_absolute_timeout
  pub owner : user_with d.users sess.user_id ≡ some u

admit-Opens :
    (sec : Security) (w : World) (sess found : Session) (u : User)
    → (admit sec (some found) w).0 ≡ ok (some (u, sess))
    → (found ≡ sess) × Opens sec w.db (w.env.clock w.step) sess u
unfolding admit ◌>>=◌ delete_session user_by_id attempt quiet statement time_now modify
admit-Opens sec w sess found u h = (
  ground arith,
  record {
    within_idle = ground arith;
    within_absolute = ground arith;
    owner = elim (Option-cases (user_with w.db.users found.user_id)) [
      | inl gone ↦ absurd (ground arith)
      | inr (o, there) ↦ ground arith
    ];
  },
)

-- A cookie that `currentUser` accepts names a session's row that has not run out, and the user is
-- the session's.
pub current_user-Opens :
    (sec : Security) (w : World) (cookie : Option String) (u : User) (sess : Session)
    → (current_user sec cookie w).0 ≡ ok (some (u, sess))
    → (id : String) × (cookie ≡ some id)
      × (session_row w.db id ≡ some sess)
      × Opens sec w.db (w.env.clock (suc w.step)) sess u
unfolding current_user ◌>>=◌ session_by_id quiet statement
current_user-Opens sec w none u sess h = cc
current_user-Opens sec w (some id) u sess h = elim (Option-cases (session_row w.db id)) [
  | inl missing ↦ absurd (unfold admit in ground arith)
  | inr (found, there) ↦
      let (same, o) =
        admit-Opens sec (record w { step = suc w.step }) sess found u (ground arith) in
      (id, cc, cc, o)
]
