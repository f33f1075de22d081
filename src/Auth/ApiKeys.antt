-- ===== src/Auth/ApiKeys.antt =====
-- The API keys of src/auth/service.py. `sha256` stands for the hex digest of hashlib, `raw_key` for what
-- `secrets.token_urlsafe` gives, `id` for the fresh uuid of a row.
pub mod Life
use rest_api_plagiarism.Prelude.{
  ℕ, ◌+◌, ◌*◌, String, str_eq, Bool, true, false, Option, none, some, List, [], ◌∷◌, ◌++◌, ltb,
  ◌==◌, if◌then◌else◌,
}
use rest_api_plagiarism.Auth.Users.{Time, User, get_user_by_id}
use rest_api_plagiarism.Auth.Tokens.{day}

pub record ApiKey : Type 0 where
  pub id : String
  pub user_id : String
  pub name : Option String
  pub key_hash : String
  pub created_at : Time
  pub last_used_at : Option Time
  pub expires_at : Option Time

-- `if expires_in_days`: 0 days are no expiry.
abbrev pub expiry_after : Time → Option ℕ → Option Time
expiry_after now none = none
expiry_after now (some days) = if days == 0 then none else some (now + days * day)

pub create_api_key :
    (String → String)
    → Time
    → String
    → String
    → User
    → Option String
    → Option ℕ
    → List ApiKey
    → ApiKey × List ApiKey
create_api_key sha256 now id raw_key u name expires_in_days keys =
    let key : ApiKey = record {
      id = id;
      user_id = u.id;
      name = name;
      key_hash = sha256 raw_key;
      created_at = now;
      last_used_at = none;
      expires_at = expiry_after now expires_in_days;
    } in
    (key, keys ++ key ∷ [])

unfoldable pub key_with_hash : String → List ApiKey → Option ApiKey
key_with_hash h [] = none
key_with_hash h (k ∷ keys) = if str_eq k.key_hash h then some k else key_with_hash h keys

unfoldable pub get_api_key : String → List ApiKey → Option ApiKey
get_api_key id [] = none
get_api_key id (k ∷ keys) = if str_eq k.id id then some k else get_api_key id keys

pub save_key : ApiKey → List ApiKey → List ApiKey
save_key key [] = []
save_key key (k ∷ keys) = if str_eq k.id key.id then key ∷ keys else k ∷ save_key key keys

-- `api_key.expires_at and api_key.expires_at < now`
abbrev pub is_expired : Time → Option Time → Bool
is_expired now none = false
is_expired now (some t) = ltb t now

abbrev pub used : Time → Option ApiKey → List User → List ApiKey → Option User × List ApiKey
used now none users keys = (none, keys)
used now (some k) users keys =
    if is_expired now k.expires_at
    then (none, keys)
    else (get_user_by_id k.user_id users, save_key (record k { last_used_at = some now }) keys)

pub get_user_by_api_key :
    (String → String) → Time → String → List User → List ApiKey → Option User × List ApiKey
get_user_by_api_key sha256 now raw_key users keys =
    used now (key_with_hash (sha256 raw_key) keys) users keys

-- The rows that `list_api_keys` selects.
pub keys_of : String → List ApiKey → List ApiKey
keys_of user_id [] = []
keys_of user_id (k ∷ keys) =
    let rest = keys_of user_id keys in if str_eq k.user_id user_id then k ∷ rest else rest

-- A key that the user may revoke: any for a global admin, else one of their own.
abbrev pub may_revoke : User → String → ApiKey → Bool
may_revoke u id k =
    if str_eq k.id id then if u.is_global_admin then true else str_eq k.user_id u.id else false

pub revoke_api_key : User → String → List ApiKey → Bool × List ApiKey
revoke_api_key u id [] = (false, [])
revoke_api_key u id (k ∷ keys) =
    let rest = revoke_api_key u id keys in
    if may_revoke u id k then (true, keys) else (rest.0, k ∷ rest.1)

abbrev pub or_old : {A : Type 0} → Option A → Option A → Option A
or_old none old = old
or_old (some x) old = some x

abbrev pub updated_expiry : Time → Option ℕ → Option Time → Option Time
updated_expiry now none old = old
updated_expiry now (some days) old = some (now + days * day)

abbrev pub updated_key :
    Time → Option String → Option ℕ → Option ApiKey → List ApiKey → Option ApiKey × List ApiKey
updated_key now name days none keys = (none, keys)
updated_key now name days (some k) keys =
    let k' : ApiKey = record k {
      name = or_old name k.name;
      expires_at = updated_expiry now days k.expires_at;
    } in
    (some k', save_key k' keys)

pub update_api_key :
    Time → String → Option String → Option ℕ → List ApiKey → Option ApiKey × List ApiKey
unfolding save_key
update_api_key now id name days keys = updated_key now name days (get_api_key id keys) keys

-- What the route `PATCH /api-keys/{key_id}` answers.
pub data Patched : Type 0 where
  key_not_found not_authorized : Patched
  patched : ApiKey → Patched

abbrev pub patch_result : Option ApiKey × List ApiKey → Patched × List ApiKey
patch_result (none, keys) = (key_not_found, keys)
patch_result (some k, keys) = (patched k, keys)

abbrev pub patch_owned :
    Time
    → User
    → String
    → Option String
    → Option ℕ
    → Option ApiKey
    → List ApiKey
    → Patched × List ApiKey
patch_owned now u id name days none keys = (key_not_found, keys)
patch_owned now u id name days (some k) keys =
    let update = patch_result (update_api_key now id name days keys) in
    if str_eq k.user_id u.id
    then update
    else if u.is_global_admin
    then update
    else (not_authorized, keys)

unfoldable patch_api_key :
    Time → User → String → Option String → Option ℕ → List ApiKey → Patched × List ApiKey
unfolding update_api_key
patch_api_key now u id name days keys = patch_owned now u id name days (get_api_key id keys) keys
