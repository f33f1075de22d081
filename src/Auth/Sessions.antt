-- ===== src/Auth/Sessions.antt =====
-- Who a request speaks for, and what ends a session: src/auth/dependencies.py, and the refresh, logout and
-- password operations of src/auth/service.py and src/auth/router.py.
pub mod Revoked
pub mod Changed
use rest_api_plagiarism.Prelude.{
  ℕ, ◌+◌, ◌*◌, String, str_eq, Bool, true, false, Option, none, some, List, [], ◌∷◌, ltb, leb, ◌==◌,
  if◌then◌else◌,
}
use rest_api_plagiarism.Auth.Users.{
  Time, second, UserRole, User, role, has_minimum_role, get_user_by_id, get_user_by_email,
  save_user,
}
use rest_api_plagiarism.Auth.Passwords.{AuthConfig, PasswordError, validate_password}
use rest_api_plagiarism.Auth.Login.{Password, Crypt}
use rest_api_plagiarism.Auth.Tokens.{
  Blacklist, blacklist_token, is_token_blacklisted, Payload, Jose, TokenSettings, TokenResponse,
  create_token_response, reset_payload, jti_in, get_token_jti, expiry_in, get_token_expiry,
}
use rest_api_plagiarism.Auth.ApiKeys.{ApiKey, get_user_by_api_key}

-- An empty text is false.
abbrev pub truthy : Option String → Option String
truthy none = none
truthy (some s) = if str_eq s "" then none else some s

abbrev pub sv_of : Option ℕ → ℕ
sv_of none = 0
sv_of (some n) = n

-- The reasons of the status 401.
pub data Refusal : Type 0 where
  token_revoked invalid_token invalid_payload user_not_found password_changed : Refusal
  invalid_api_key authentication_required : Refusal

pub data Access : Type 0 where
  granted : User → Access
  refused : Refusal → Access

abbrev pub by_version : Option ℕ → Option User → Access
by_version sv none = refused user_not_found
by_version sv (some u) =
    if ltb (sv_of sv) u.session_version then refused password_changed else granted u

abbrev pub by_sub : Option ℕ → Option String → List User → Access
by_sub sv none users = refused invalid_payload
by_sub sv (some id) users = by_version sv (get_user_by_id id users)

abbrev pub by_payload : Option Payload → List User → Access
by_payload none users = refused invalid_token
by_payload (some p) users = by_sub p.sv p.sub users

abbrev pub revoked : Bool → Time → Option String → Blacklist → Bool
revoked online now none blacklist = false
revoked online now (some jti) blacklist = is_token_blacklisted online now jti blacklist

-- The branch of `get_current_user` for a bearer token.
unfoldable pub by_token : Jose → Bool → Time → String → Blacklist → List User → Access
by_token jose online now token blacklist users =
    if revoked online now (truthy (get_token_jti jose now token)) blacklist
    then refused token_revoked
    else by_payload (jose.decode now token) users

abbrev pub by_key : Option User × List ApiKey → Access × List ApiKey
by_key (none, keys) = (refused invalid_api_key, keys)
by_key (some u, keys) = (granted u, keys)

abbrev pub by_header :
    (String → String) → Time → Option String → List User → List ApiKey → Access × List ApiKey
by_header sha256 now none users keys = (refused authentication_required, keys)
by_header sha256 now (some raw_key) users keys =
    by_key (get_user_by_api_key sha256 now raw_key users keys)

unfoldable get_current_user :
    Jose
    → (String → String)
    → Bool
    → Time
    → Option String
    → Option String
    → Blacklist
    → List User
    → List ApiKey
    → Access × List ApiKey
unfolding by_token
get_current_user jose sha256 online now (some token) x_api_key blacklist users keys =
    (by_token jose online now token blacklist users, keys)
get_current_user jose sha256 online now none x_api_key blacklist users keys =
    by_header sha256 now (truthy x_api_key) users keys

-- `require_global_admin` and `require_role`
abbrev pub require_global_admin : User → Option User
require_global_admin u = if u.is_global_admin then some u else none

abbrev pub require_role : UserRole → User → Option User
require_role minimum_role u = if has_minimum_role (role u) minimum_role then some u else none

-- The part of `refresh_access_token` behind the blacklist.
abbrev pub versioned : Option ℕ → Option User → Option User
versioned sv none = none
versioned sv (some u) = if ltb (sv_of sv) u.session_version then none else some u

abbrev pub refresh_user : Option String → Option String → Option ℕ → List User → Option User
refresh_user none email sv users = none
refresh_user (some id) none sv users = none
refresh_user (some id) (some email) sv users = versioned sv (get_user_by_id id users)

abbrev pub rotated : Bool → Time → String → Option Time → Blacklist → Blacklist
rotated online now jti none blacklist = blacklist
rotated online now jti (some expiry) blacklist = blacklist_token online now jti expiry blacklist

abbrev pub refreshed :
    Bool → Time → Payload → Option String → Blacklist → List User → Option User × Blacklist
refreshed online now p none blacklist users =
    (refresh_user (truthy p.sub) (truthy p.email) p.sv users, blacklist)
refreshed online now p (some jti) blacklist users =
    if is_token_blacklisted online now jti blacklist then (none, blacklist) else (
      refresh_user (truthy p.sub) (truthy p.email) p.sv users,
      rotated online now jti (expiry_in p.exp) blacklist,
    )

abbrev pub is_kind : String → Option String → Bool
is_kind k none = false
is_kind k (some k') = str_eq k k'

abbrev pub refresh_payload_user :
    Bool → Time → Option Payload → Blacklist → List User → Option User × Blacklist
refresh_payload_user online now none blacklist users = (none, blacklist)
refresh_payload_user online now (some p) blacklist users =
    if is_kind "refresh" p.kind
    then refreshed online now p (truthy p.jti) blacklist users
    else (none, blacklist)

abbrev pub respond :
    Jose
    → TokenSettings
    → Time
    → String
    → String
    → Option User × Blacklist
    → Option TokenResponse × Blacklist
respond jose settings now jti jti' (none, blacklist) = (none, blacklist)
respond jose settings now jti jti' (some u, blacklist) =
    (some (create_token_response jose settings now jti jti' true u), blacklist)

unfoldable pub refresh_access_token :
    Jose
    → TokenSettings
    → Bool
    → Time
    → String
    → String
    → String
    → Blacklist
    → List User
    → Option TokenResponse × Blacklist
refresh_access_token jose settings online now jti jti' token blacklist users =
    respond jose settings now jti jti'
      (refresh_payload_user online now (jose.decode now token) blacklist users)

-- `logout`, of the token that `get_current_user` has accepted.
abbrev pub logged_out : Bool → Time → Option String → Option Time → Blacklist → Blacklist
logged_out online now none expiry blacklist = blacklist
logged_out online now (some jti) expiry blacklist = rotated online now jti expiry blacklist

pub logout : Jose → Bool → Time → String → Blacklist → Blacklist
logout jose online now token blacklist =
    logged_out online now (truthy (get_token_jti jose now token)) (get_token_expiry jose token)
      blacklist

-- `initiate_password_reset`
abbrev pub reset_token : Jose → Time → String → Option User → Option String
reset_token jose now jti none = none
reset_token jose now jti (some u) = some (jose.encode (reset_payload now jti u))

unfoldable initiate_password_reset :
    Jose → (String → String) → Time → String → String → List User → Option String
unfolding get_user_by_email
initiate_password_reset jose normalize now jti email users =
    reset_token jose now jti (get_user_by_email normalize email users)

module _ (config : AuthConfig) (is_digit : ℕ → Bool) (crypt : Crypt) where
  abbrev pub with_password : Password → User → User
  with_password password u = record u { hashed_password = crypt.hash password }

  abbrev pub set_password : Password → Option User → List User → Bool × List User
  set_password password none users = (false, users)
  set_password password (some u) users = (true, save_user (with_password password u) users)

  abbrev pub if_valid : {A : Type 0} → List PasswordError → A → A → A
  if_valid [] valid invalid = valid
  if_valid (e ∷ es) valid invalid = invalid

  -- `reset_password_for_user`
  pub reset_password_for_user : String → Password → List User → Bool × List User
  unfolding validate_password
  reset_password_for_user id password users =
      if_valid (validate_password config is_digit password)
        (set_password password (get_user_by_id id users) users) (false, users)

  abbrev pub changed : Password → Password → Option User → List User → Bool × List User
  changed current password none users = (false, users)
  changed current password (some u) users =
      if crypt.verify current u.hashed_password
      then (
        true,
        save_user
            (record u {
              hashed_password = crypt.hash password;
              session_version = u.session_version + 1;
            })
            users,
      )
      else (false, users)

  -- `change_password`
  unfoldable pub change_password : String → Password → Password → List User → Bool × List User
  unfolding validate_password
  change_password id current password users =
      if_valid (validate_password config is_digit password)
        (changed current password (get_user_by_id id users) users) (false, users)

  -- The part of `reset_password` behind the look into the blacklist; a used token is blacklisted.
  abbrev pub spent :
      Bool
      → Time
      → Option String
      → Option Time
      → Bool × List User
      → Blacklist
      → Bool × List User × Blacklist
  spent online now jti expiry (false, users) blacklist = (false, users, blacklist)
  spent online now jti expiry (true, users) blacklist =
      (true, users, logged_out online now jti expiry blacklist)

  abbrev pub reset_sub :
      Bool
      → Time
      → Payload
      → Option String
      → Password
      → List User
      → Blacklist
      → Bool × List User × Blacklist
  reset_sub online now p none password users blacklist = (false, users, blacklist)
  reset_sub online now p (some id) password users blacklist =
      if revoked online now (truthy p.jti) blacklist
      then (false, users, blacklist)
      else spent online now (truthy p.jti) (expiry_in p.exp)
          (reset_password_for_user id password users) blacklist

  abbrev pub reset_by :
      Bool → Time → Option Payload → Password → List User → Blacklist → Bool × List User × Blacklist
  reset_by online now none password users blacklist = (false, users, blacklist)
  reset_by online now (some p) password users blacklist =
      if is_kind "password_reset" p.kind
      then reset_sub online now p (truthy p.sub) password users blacklist
      else (false, users, blacklist)

  -- `reset_password`
  unfoldable reset_password :
      Jose → Bool → Time → String → Password → List User → Blacklist → Bool × List User × Blacklist
  unfolding reset_password_for_user
  reset_password jose online now token password users blacklist =
      reset_by online now (jose.decode now token) password users blacklist
