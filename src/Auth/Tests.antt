-- ===== src/Auth/Tests.antt =====
-- Runs of src/auth on small tables, and the theorems applied to them.
use rest_api_plagiarism.Prelude.{
  ℕ, ◌+◌, ◌*◌, ◌≡◌, refl, arith, str, str_eq, Bool, true, false, none, some, List, [], ◌∷◌, ltb,
  leb, if◌then◌else◌, sum_of,
}
use rest_api_plagiarism.Auth.Users.{second, User, get_user_by_id, user_with_email, save_user}
use rest_api_plagiarism.Auth.Passwords.{
  AuthConfig, too_short, no_uppercase, no_digit, validate_password, search_class,
}
use rest_api_plagiarism.Auth.Login.{Password, Crypt, lockout, failed, new_user, authenticate_user}
use rest_api_plagiarism.Auth.Login.Lockout.{logins, authenticate_user-unlocks}
use rest_api_plagiarism.Auth.Tokens.{
  Blacklist, Payload, Jose, TokenSettings, is_token_blacklisted, create_token_response,
}
use rest_api_plagiarism.Auth.ApiKeys.{
  ApiKey, create_api_key, get_user_by_api_key, revoke_api_key, key_with_hash, get_api_key,
}
use rest_api_plagiarism.Auth.ApiKeys.Life.{create_api_key-life}
use rest_api_plagiarism.Auth.Sessions.{
  Refusal, granted, refused, token_revoked, by_token, refresh_access_token, logout, change_password,
  reset_password_for_user,
}
use rest_api_plagiarism.Auth.Sessions.Revoked.{refresh_access_token-once, logout-refused}
use rest_api_plagiarism.Auth.Sessions.Changed.{
  change_password-revokes, reset_password_for_user-sessions,
}
use rest_api_plagiarism.Auth.RateLimit.{
  Arrival, Counters, allowed, first_answered, allowed-first_answered,
}

-- A digest for the tests: the sum of the code points.
abbrev crypt : Crypt
crypt = record {
  hash = λ p. str (sum_of (λ c. c) p);
  verify = λ p h. str_eq (str (sum_of (λ c. c) p)) h;
}

abbrev config : AuthConfig
config = record {
  min_password_length = 4;
  require_uppercase = true;
  require_lowercase = true;
  require_digit = true;
}

abbrev ascii_digit : ℕ → Bool
ascii_digit c = if leb b'0' c then leb c b'9' else false

abbrev right : Password
right = b'A' ∷ b'b' ∷ b'c' ∷ b'1' ∷ []

abbrev wrong : Password
wrong = b'x' ∷ []

abbrev fresh : Password
fresh = b'Z' ∷ b'b' ∷ b'c' ∷ b'2' ∷ []

abbrev ann : User
ann = new_user "ann" "ann@x.org" (crypt.hash right) false

abbrev bob : User
bob = new_user "bob" "bob@x.org" (crypt.hash wrong) false

abbrev users : List User
users = ann ∷ bob ∷ []

-- Every rule but that of the lower case letters is broken.
three_errors : validate_password config ascii_digit wrong ≡ too_short ∷ no_uppercase ∷ no_digit ∷ []
unfolding validate_password search_class
three_errors = refl

-- Five wrong passwords in a row lock the account: the right one is refused after them.
locked_out :
    (authenticate_user crypt 6 "ann@x.org" right (
      logins crypt "ann@x.org"
        ((1, wrong) ∷ (2, wrong) ∷ (3, wrong) ∷ (4, wrong) ∷ (5, wrong) ∷ [])
        users)).0
    ≡ none
unfolding logins authenticate_user user_with_email save_user str
locked_out = refl

authenticate_user-unlocks_example :
    (v : User) × ((authenticate_user crypt
        (lockout + 5)
        "ann@x.org"
        right
        (logins crypt "ann@x.org" ((1, wrong) ∷ (2, wrong) ∷ []) users)).0
      ≡ some v)
    × (v.failed_login_attempts ≡ 0)
    × (v.lockout_until ≡ none)
unfolding user_with_email str
authenticate_user-unlocks_example =
    authenticate_user-unlocks crypt 4 (lockout + 5) "ann@x.org" ((1, wrong) ∷ (2, wrong) ∷ []) users
      ann right ((refl, tt), (tt, tt)) refl (omega arith) refl (omega arith) refl

-- One token, good for its first 100 seconds.
abbrev claims : Payload
claims = record {
  sub = some "ann";
  email = some "ann@x.org";
  jti = some "j1";
  kind = some "refresh";
  sv = some 1;
  exp = some 100;
}

abbrev jose : Jose
jose = record {
  encode = λ p. "token";
  decode = λ now token.
      if str_eq token "token" then if ltb now (100 * second) then some claims else none else none;
  decode_late = λ token. if str_eq token "token" then some claims else none;
}

abbrev settings : TokenSettings
settings = record { access_token_expire_minutes = 1440; refresh_token_expire_days = 7 }

abbrev no_blacklist : Blacklist
no_blacklist jti = none

refresh_access_token-once_example :
    let bl =
      (refresh_access_token jose settings true second "a" "b" "token" no_blacklist users).1 in
    (by_token jose true (9 * second) "token" bl users ≡ refused token_revoked)
    × ((refresh_access_token jose settings true (9 * second) "c" "d" "token" bl users).0 ≡ none)
unfolding refresh_access_token is_token_blacklisted get_user_by_id create_token_response
refresh_access_token-once_example =
    refresh_access_token-once jose settings second (9 * second) "a" "b" "c" "d" "token" "j1" claims
      100 no_blacklist users users (create_token_response jose settings second "a" "b" true ann)
      refl refl refl refl (omega arith) (omega arith) refl

logout-refused_example :
    (by_token jose true (98 * second) "token" (logout jose true second "token" no_blacklist) users
      ≡ refused token_revoked)
    × ((refresh_access_token jose settings true
          (98 * second)
          "c"
          "d"
          "token"
          (logout jose true second "token" no_blacklist)
          users).0
        ≡ none)
logout-refused_example =
    logout-refused jose settings second (98 * second) "c" "d" "token" "j1" claims 100 no_blacklist
      users refl refl refl refl refl (omega arith) (omega arith)

change_password-revokes_example :
    let users' = (change_password config ascii_digit crypt "ann" right fresh users).1 in
    ((r : Refusal) × (by_token jose true 7 "token" no_blacklist users' ≡ refused r))
    × ((refresh_access_token jose settings true 7 "a" "b" "token" no_blacklist users').0 ≡ none)
unfolding change_password get_user_by_id search_class str
change_password-revokes_example =
    change_password-revokes config ascii_digit crypt jose settings true 7 "a" "b" "token" "ann"
      right fresh claims no_blacklist users ann refl refl refl refl (omega arith)

reset_password_for_user-sessions_example :
    (w : User) × (by_token jose true 7 "token" no_blacklist
        (reset_password_for_user config ascii_digit crypt "ann" fresh users).1
      ≡ granted w)
    × (w.id ≡ "ann")
    × (w.session_version ≡ 1)
unfolding by_token is_token_blacklisted get_user_by_id
reset_password_for_user-sessions_example =
    reset_password_for_user-sessions config ascii_digit crypt jose true 7 "token" "ann" fresh
      no_blacklist users ann refl

abbrev keys : List ApiKey
keys =
    record {
      id = "k0";
      user_id = "bob";
      name = none;
      key_hash = "h0";
      created_at = 0;
      last_used_at = none;
      expires_at = none;
    }
    ∷ []

create_api_key-life_example :
    let keys' = (create_api_key (λ s. s) 1 "k1" "raw" ann none (some 2) keys).1 in
    ((get_user_by_api_key (λ s. s) 9 "raw" users keys').0 ≡ get_user_by_id "ann" users)
    × ((revoke_api_key ann "k1" keys').0 ≡ true)
    × ((get_user_by_api_key (λ s. s) 12 "raw" users (revoke_api_key ann "k1" keys').1).0 ≡ none)
unfolding get_api_key key_with_hash
create_api_key-life_example =
    create_api_key-life (λ s. s) 1 9 12 "k1" "raw" ann none (some 2) users keys refl refl refl

abbrev requests : List Arrival
requests =
    (true, 1000000)
    ∷ (true, 2000000)
    ∷ (false, 2500000)
    ∷ (true, 3000000)
    ∷ (true, 50000000)
    ∷ (true, 90000000)
    ∷ (true, 140000000)
    ∷ []

abbrev no_counters : Counters
no_counters key = none

-- After the fifth login none is allowed, a minute later or two.
allowed-first_answered_example :
    allowed "ip" 5 60 ((true, 1) ∷ requests) no_counters ≡ first_answered 5 ((true, 1) ∷ requests)
allowed-first_answered_example =
    allowed-first_answered "ip" 5 60 1 requests no_counters refl (omega arith)

-- Two wrong passwords whose requests read the row before either commits: the second commit writes the same counter.
overlapping_guesses :
    user_with_email "ann@x.org" (save_user (failed 2 ann) (save_user (failed 1 ann) users))
    ≡ some (failed 1 ann)
unfolding user_with_email save_user
overlapping_guesses = refl
