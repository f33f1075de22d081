-- ===== src/Auth/Passwords.antt =====
-- src/auth/password_validation.py. A password is the list of its code points; `is_digit` stands for the
-- class \d of Python's regular expressions, which goes by Unicode tables.
use rest_api_plagiarism.Prelude.{
  ℕ, Bool, true, false, ◌&&◌, ◌||◌, List, [], ◌∷◌, ◌++◌, leb, ltb, if◌then◌else◌, length, ◌==◌,
}

-- The settings of `auth_config` that the rules read.
pub record AuthConfig : Type 0 where
  pub min_password_length : ℕ
  pub require_uppercase : Bool
  pub require_lowercase : Bool
  pub require_digit : Bool

pub data PasswordError : Type 0 where
  too_short no_uppercase no_lowercase no_digit : PasswordError

-- `re.search` of a class of characters.
unfoldable pub search_class : (ℕ → Bool) → List ℕ → Bool
search_class in_class [] = false
search_class in_class (c ∷ cs) = in_class c || search_class in_class cs

abbrev pub is_uppercase : ℕ → Bool
is_uppercase c = leb b'A' c && leb c b'Z'

abbrev pub is_lowercase : ℕ → Bool
is_lowercase c = leb b'a' c && leb c b'z'

-- One `errors.append` under its condition.
abbrev pub error_if : Bool → PasswordError → List PasswordError
error_if b e = if b then e ∷ [] else []

abbrev pub lacks : Bool → (ℕ → Bool) → List ℕ → Bool
lacks required in_class password =
    if required then if search_class in_class password then false else true else false

module _ (config : AuthConfig) (is_digit : ℕ → Bool) where
  unfoldable pub validate_password : List ℕ → List PasswordError
  validate_password password =
      error_if (ltb (length password) config.min_password_length) too_short
      ++ (error_if (lacks config.require_uppercase is_uppercase password) no_uppercase
          ++ (error_if (lacks config.require_lowercase is_lowercase password) no_lowercase
              ++ error_if (lacks config.require_digit is_digit password) no_digit))

  unfoldable is_password_valid : List ℕ → Bool
  unfolding validate_password
  is_password_valid password = length (validate_password password) == 0
