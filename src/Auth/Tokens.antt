-- ===== src/Auth/Tokens.antt =====
-- src/auth/blacklist_service.py, and the tokens of src/auth/service.py. `Jose` stands for the JWT library: what
-- it makes of a payload, and what it reads from a token at a time, or at any time. It turns an expiry into whole
-- seconds. `jti` is the fresh uuid of a token. Claims that no code reads are left out.
use rest_api_plagiarism.Prelude.{
  ℕ, ◌+◌, ◌-◌, ◌*◌, ◌/◌, String, str_eq, Bool, false, Option, none, some, ltb, ◌==◌, if◌then◌else◌,
}
use rest_api_plagiarism.Auth.Users.{Time, second, User}

-- The keys token_blacklist:{jti} of Redis, with the time at which each expires.
abbrev pub Blacklist : Type 0
Blacklist = String → Option Time

abbrev pub lives : Time → Option Time → Bool
lives now none = false
lives now (some until) = ltb now until

-- `blacklist_token` and `is_token_blacklisted`; where Redis does not answer nothing is stored or found.
unfoldable pub blacklist_token : Bool → Time → String → Time → Blacklist → Blacklist
blacklist_token online now jti expires_at blacklist j =
    let ttl_seconds = (expires_at - now) / second in
    if online
    then if ltb 0 ttl_seconds
      then if str_eq j jti then some (now + ttl_seconds * second) else blacklist j
      else blacklist j
    else blacklist j

unfoldable pub is_token_blacklisted : Bool → Time → String → Blacklist → Bool
is_token_blacklisted online now jti blacklist = if online then lives now (blacklist jti) else false

pub record Payload : Type 0 where
  pub sub : Option String
  pub email : Option String
  pub jti : Option String
  pub kind : Option String
  pub sv : Option ℕ
  pub exp : Option ℕ

pub record Jose : Type 0 where
  pub encode : Payload → String
  pub decode : Time → String → Option Payload
  pub decode_late : String → Option Payload

pub record TokenSettings : Type 0 where
  pub access_token_expire_minutes : ℕ
  pub refresh_token_expire_days : ℕ

abbrev pub seconds_of : Time → ℕ
seconds_of t = t / second

abbrev pub minute : Time
minute = 60 * second

abbrev pub day : Time
day = 24 * 60 * minute

abbrev pub access_payload : TokenSettings → Time → String → User → Payload
access_payload settings now jti u = record {
  sub = some u.id;
  email = some u.email;
  jti = some jti;
  kind = some "access";
  sv = some u.session_version;
  exp = some (seconds_of (now + settings.access_token_expire_minutes * minute));
}

abbrev pub refresh_payload : TokenSettings → Time → String → User → Payload
refresh_payload settings now jti u = record {
  sub = some u.id;
  email = some u.email;
  jti = some jti;
  kind = some "refresh";
  sv = some u.session_version;
  exp = some (seconds_of (now + settings.refresh_token_expire_days * day));
}

abbrev pub reset_payload : Time → String → User → Payload
reset_payload now jti u = record {
  sub = some u.id;
  email = some u.email;
  jti = some jti;
  kind = some "password_reset";
  sv = none;
  exp = some (seconds_of (now + 60 * minute));
}

-- `TokenResponse`, without the constant fields.
pub record TokenResponse : Type 0 where
  pub access_token : String
  pub refresh_token : Option String
  pub expires_in : ℕ
  pub user : User

unfoldable pub create_token_response :
    Jose → TokenSettings → Time → String → String → Bool → User → TokenResponse
create_token_response jose settings now jti jti' include_refresh u = record {
  access_token = jose.encode (access_payload settings now jti u);
  refresh_token =
      if include_refresh then some (jose.encode (refresh_payload settings now jti' u)) else none;
  expires_in = settings.access_token_expire_minutes * 60;
  user = u;
}

abbrev pub jti_in : Option Payload → Option String
jti_in none = none
jti_in (some p) = p.jti

-- `get_token_jti` and `get_token_expiry`
abbrev pub get_token_jti : Jose → Time → String → Option String
get_token_jti jose now token = jti_in (jose.decode now token)

abbrev pub expiry_in : Option ℕ → Option Time
expiry_in none = none
expiry_in (some e) = if e == 0 then none else some (e * second)

abbrev pub late_expiry : Option Payload → Option Time
late_expiry none = none
late_expiry (some p) = expiry_in p.exp

abbrev pub get_token_expiry : Jose → String → Option Time
get_token_expiry jose token = late_expiry (jose.decode_late token)
