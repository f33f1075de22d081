-- ===== src/Auth/Login.antt =====
-- `authenticate_user` and `create_user` of src/auth/service.py, and `register` of src/auth/router.py.
-- `Crypt` stands for the bcrypt context of passlib, `normalize` for `email.lower().strip()`, and `id` for
-- the fresh uuid of a row. Each request runs whole, from its SELECT to its commit: requests that overlap, which the
-- source does not exclude, are not modelled.
pub mod Lockout
use rest_api_plagiarism.Prelude.{
  ℕ, ◌+◌, ◌*◌, String, Bool, true, false, Option, none, some, List, [], ◌∷◌, ◌++◌, leb, ltb,
  if◌then◌else◌,
}
use rest_api_plagiarism.Auth.Users.{
  Time, second, User, user_with_email, save_user, get_user_by_email,
}
use rest_api_plagiarism.Auth.Passwords.{AuthConfig, PasswordError, validate_password}

abbrev pub Password : Type 0
Password = List ℕ

pub record Crypt : Type 0 where
  pub hash : Password → String
  pub verify : Password → String → Bool

-- `timedelta(minutes=15)`
abbrev pub lockout : Time
lockout = 15 * 60 * second

-- `user.lockout_until and user.lockout_until > now`
abbrev pub later_than : Time → Option Time → Bool
later_than now none = false
later_than now (some t) = ltb now t

abbrev pub is_locked : Time → User → Bool
is_locked now u = later_than now u.lockout_until

-- The row after a wrong password, and after the right one.
abbrev pub failed : Time → User → User
failed now u =
    if leb 5 (u.failed_login_attempts + 1)
    then record u { failed_login_attempts = 0; lockout_until = some (now + lockout) }
    else record u { failed_login_attempts = u.failed_login_attempts + 1 }

abbrev pub succeeded : User → User
succeeded u = record u { failed_login_attempts = 0; lockout_until = none }

module _ (crypt : Crypt) where
  abbrev pub attempted : Time → Password → Option User → List User → Option User × List User
  attempted now password none users = (none, users)
  attempted now password (some u) users =
      if is_locked now u
      then (none, users)
      else if crypt.verify password u.hashed_password
      then (some (succeeded u), save_user (succeeded u) users)
      else (none, save_user (failed now u) users)

  unfoldable pub authenticate_user : Time → String → Password → List User → Option User × List User
  authenticate_user now email password users =
      attempted now password (user_with_email email users) users

-- The defaults of a new row.
abbrev pub new_user : String → String → String → Bool → User
new_user id email hashed_password is_global_admin = record {
  id = id;
  email = email;
  username = none;
  hashed_password = hashed_password;
  is_global_admin = is_global_admin;
  failed_login_attempts = 0;
  lockout_until = none;
  session_version = 1;
  last_login = none;
}

-- The user, or the errors that make the status 400.
pub data Created : Type 0 where
  created : User → Created
  invalid_password : List PasswordError → Created

module _ (config : AuthConfig) (is_digit : ℕ → Bool) (crypt : Crypt)
    (normalize : String → String) where
  abbrev pub create_valid :
      List PasswordError → String → String → Password → Bool → List User → Created × List User
  create_valid [] id email password is_global_admin users =
      let u = new_user id (normalize email) (crypt.hash password) is_global_admin in
      (created u, users ++ u ∷ [])
  create_valid (e ∷ es) id email password is_global_admin users = (invalid_password (e ∷ es), users)

  pub create_user : String → String → Password → Bool → List User → Created × List User
  unfolding validate_password
  create_user id email password is_global_admin users =
      create_valid (validate_password config is_digit password) id email password is_global_admin
        users

  -- What `register` does before it issues tokens: none are issued for an address that is taken.
  abbrev pub registered :
      Option User → String → String → Password → List User → Option Created × List User
  registered (some u) id email password users = (none, users)
  registered none id email password users =
      let (made, users') = create_user id email password false users in (some made, users')

  unfoldable register : String → String → Password → List User → Option Created × List User
  unfolding create_user get_user_by_email
  register id email password users =
      registered (get_user_by_email normalize email users) id email password users
