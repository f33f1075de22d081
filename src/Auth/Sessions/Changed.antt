-- ===== src/Auth/Sessions/Changed.antt =====
-- What a new password of src/auth/service.py does to the sessions of the account.
use rest_api_plagiarism.Prelude.{
  some-injective, ℕ, ◌+◌, ◌≤◌, ◌<◌, ◌≡◌, ◌⊎◌, refl, sym, ap, subst, ◌∙◌, inl, inr, arith, String,
  str_eq, str_eq_iff, Bool, true, false, Option, none, some, List, [], ◌∷◌, ltb, Bool-cases,
  Option-cases,
}
use rest_api_plagiarism.Auth.Users.{
  Time, User, get_user_by_id, save_user, get_user_by_id-id, get_user_by_id-save_user,
  get_user_by_id-save_other,
}
use rest_api_plagiarism.Auth.Passwords.{AuthConfig, PasswordError, validate_password}
use rest_api_plagiarism.Auth.Login.{Password, Crypt}
use rest_api_plagiarism.Auth.Tokens.{
  Blacklist, is_token_blacklisted, Payload, Jose, TokenSettings, jti_in, get_token_jti,
}
use rest_api_plagiarism.Auth.Sessions.{
  truthy, sv_of, Refusal, token_revoked, password_changed, granted, refused, by_version, by_sub,
  by_payload, revoked, by_token, versioned, refresh_user, refreshed, is_kind, refresh_payload_user,
  respond, refresh_access_token, with_password, set_password, if_valid, reset_password_for_user,
  changed, change_password,
}

module _ (config : AuthConfig) (is_digit : ℕ → Bool) (crypt : Crypt) where
  change : Password → User → User
  change password u = record u {
    hashed_password = crypt.hash password;
    session_version = u.session_version + 1;
  }

  -- A change that succeeds has stored a row with the next version.
  change_password-row :
      (id : String) (current password : Password) (users : List User) (u : User)
      → get_user_by_id id users ≡ some u
      → (change_password config is_digit crypt id current password users).0 ≡ true
      → (change_password config is_digit crypt id current password users).1
        ≡ save_user (change password u) users
  unfolding change_password change
  change_password-row id current password users u found h =
      valid_row (validate_password config is_digit password) (rw found at h)
    where
      valid_row :
          (es : List PasswordError)
          → (if_valid config is_digit crypt es
              (changed config is_digit crypt current password (some u) users)
              (false, users)).0
            ≡ true
          → (if_valid config is_digit crypt es
              (changed config is_digit crypt current password (get_user_by_id id users) users)
              (false, users)).1
            ≡ save_user
                (record u {
                  hashed_password = crypt.hash password;
                  session_version = u.session_version + 1;
                })
                users
      valid_row (e ∷ es) h = absurd (cc)
      valid_row [] h = elim (Bool-cases (crypt.verify current u.hashed_password)) [
        | inl y ↦ rw (found, changed, y)
        | inr n ↦ let h' = rw (changed, n) at h in absurd (cc)
      ]

  reset_row :
      (id : String) (password : Password) (users : List User)
      → ((reset_password_for_user config is_digit crypt id password users).1 ≡ users)
        ⊎ ((u : User) × (get_user_by_id id users ≡ some u)
            × ((reset_password_for_user config is_digit crypt id password users).1
                ≡ save_user (with_password config is_digit crypt password u) users))
  unfolding reset_password_for_user
  reset_row id password users = elim (Option-cases (get_user_by_id id users)) [
    | inl none_found ↦ inl (rw none_found (unchanged (validate_password config is_digit password)))
    | inr (u, found) ↦ rows u found (validate_password config is_digit password)
  ]
    where
      unchanged :
          (es : List PasswordError)
          → (if_valid config is_digit crypt es
              (set_password config is_digit crypt password none users)
              (false, users)).1
            ≡ users
      unchanged [] = refl
      unchanged (e ∷ es) = refl

      rows :
          (u : User)
          → get_user_by_id id users ≡ some u
          → (es : List PasswordError)
          → ((if_valid config is_digit crypt es
                (set_password config is_digit crypt password (get_user_by_id id users) users)
                (false, users)).1
              ≡ users)
            ⊎ ((u : User) × (get_user_by_id id users ≡ some u)
                × ((if_valid config is_digit crypt es
                      (set_password config is_digit crypt password (get_user_by_id id users) users)
                      (false, users)).1
                    ≡ save_user (with_password config is_digit crypt password u) users))
      rows u found (e ∷ es) = inl refl
      rows u found [] = inr (u, found, rw (found, set_password))

module _ (jose : Jose) (settings : TokenSettings) (online : Bool) (now : Time) (token : String)
    (p : Payload) (reads : jose.decode now token ≡ some p) where
  -- A token of an older version than that of its user.
  outdated :
      (a b id : String) (blacklist : Blacklist) (users : List User) (u : User)
      → p.sub ≡ some id
      → get_user_by_id id users ≡ some u
      → sv_of p.sv < u.session_version
      → ((r : Refusal) × (by_token jose online now token blacklist users ≡ refused r))
        × ((refresh_access_token jose settings online now a b token blacklist users).0 ≡ none)
  unfolding by_token refresh_access_token
  outdated a b id blacklist users u has_sub found old = (
    elim (Bool-cases (revoked online now (truthy p.jti) blacklist)) [
      | inl y ↦ (token_revoked, rw (reads, jti_in, y))
      | inr n ↦ (
        password_changed,
        rw (reads, jti_in, n, by_payload, has_sub, by_sub, found, by_version, less),
      )
    ],
    elim (Bool-cases (is_kind "refresh" p.kind)) [
      | inr n ↦ rw (reads, refresh_payload_user, n)
      | inl y ↦ rw (reads, refresh_payload_user, y) (no_user (truthy p.jti))
    ],
  )
    where
      less : ltb (sv_of p.sv) u.session_version ≡ true
      less = ground arith

      for_email : (email : Option String) → refresh_user (some id) email p.sv users ≡ none
      for_email none = refl
      for_email (some email) = rw (found, versioned, less)

      none_for : (email : Option String) → refresh_user (truthy p.sub) email p.sv users ≡ none
      none_for email = elim (Bool-cases (str_eq id "")) [
        | inl y ↦ rw (has_sub, y)
        | inr n ↦ rw (has_sub, n) (for_email email)
      ]

      no_user :
          (o : Option String)
          → (respond jose settings now a b (refreshed online now p o blacklist users)).0 ≡ none
      no_user none = rw (none_for (truthy p.email))
      no_user (some jti) = elim (Bool-cases (is_token_blacklisted online now jti blacklist)) [
        | inl y ↦ rw y
        | inr n ↦ rw (n, none_for (truthy p.email))
      ]

-- Once a change of the password has succeeded, every token of the user that was issued before it, under the version
-- that the user had or an older one, is refused by `get_current_user` and gives nothing in a refresh, whatever the
-- blacklist holds.
pub change_password-revokes :
    (config : AuthConfig) (is_digit : ℕ → Bool) (crypt : Crypt) (jose : Jose)
    (settings : TokenSettings) (online : Bool) (now : Time) (a b token id : String)
    (current password : Password) (p : Payload) (blacklist : Blacklist) (users : List User)
    (u : User)
    → get_user_by_id id users ≡ some u
    → (change_password config is_digit crypt id current password users).0 ≡ true
    → jose.decode now token ≡ some p
    → p.sub ≡ some id
    → sv_of p.sv ≤ u.session_version
    → let users' = (change_password config is_digit crypt id current password users).1 in
      ((r : Refusal) × (by_token jose online now token blacklist users' ≡ refused r))
      × ((refresh_access_token jose settings online now a b token blacklist users').0 ≡ none)
unfolding change
change_password-revokes config is_digit crypt jose settings online now a b token id current password
      p blacklist users u found done reads has_sub old =
    let u' = change config is_digit crypt password u in
    let row = change_password-row config is_digit crypt id current password users u found done in
    let found' : get_user_by_id id
          (change_password config is_digit crypt id current password users).1
        ≡ some u' =
      rw row (get_user_by_id-save_user id users u u' found (get_user_by_id-id id users u found)) in
    outdated jose settings online now token p reads a b id blacklist
      (change_password config is_digit crypt id current password users).1 u' has_sub found'
      (omega (arith, old))

by_version-granted :
    (sv : Option ℕ) (o : Option User) (v : User)
    → by_version sv o ≡ granted v
    → (o ≡ some v) × (ltb (sv_of sv) v.session_version ≡ false)
by_version-granted sv none v h = absurd (cc)
by_version-granted sv (some u) v h = elim (Bool-cases (ltb (sv_of sv) u.session_version)) [
  | inl y ↦ let h' = rw y at h in absurd (cc)
  | inr n ↦
      let same : u ≡ v = granted-injective (rw n at h) in
      (ap some same, subst (λ x. ltb (sv_of sv) x.session_version ≡ false) same n)
]
  where
    granted-injective : {u v : User} → granted u ≡ granted v → u ≡ v
    granted-injective e = cc

module _ (config : AuthConfig) (is_digit : ℕ → Bool) (crypt : Crypt) (id : String)
    (password : Password) (users : List User) where
  after : List User
  after = (reset_password_for_user config is_digit crypt id password users).1

  reset-found :
      (other : String) (v : User)
      → get_user_by_id other users ≡ some v
      → (w : User) × (get_user_by_id other after ≡ some w)
        × (w.id ≡ v.id)
        × (w.session_version ≡ v.session_version)
  unfolding after
  reset-found other v found = elim (reset_row config is_digit crypt id password users) [
    | inl same ↦ (v, rw same found, refl, refl)
    | inr (u, at, rows) ↦
        let u' = with_password config is_digit crypt password u in
        let u_id = get_user_by_id-id id users u at in
        elim (Bool-cases (str_eq id other)) [
          | inr n ↦
              let n' : str_eq u'.id other ≡ false =
                subst (λ x. str_eq x other ≡ false) (sym u_id) n in
              (v, rw rows (get_user_by_id-save_other other u' users n' ∙ found), refl, refl)
          | inl y ↦
              let e = (str_eq_iff id other).0 y in
              let same : u ≡ v =
                some-injective
                  (sym at ∙ subst (λ x. get_user_by_id x users ≡ some v) (sym e) found) in
              let here : get_user_by_id other (save_user u' users) ≡ some u' =
                subst (λ x. get_user_by_id x (save_user u' users) ≡ some u') e
                  (get_user_by_id-save_user id users u u' at u_id) in
              (u', rw rows here, ap (λ x. x.id) same, ap (λ x. x.session_version) same)
        ]
  ]

  reset-payload :
      (o : Option Payload) (v : User)
      → by_payload o users ≡ granted v
      → (w : User) × (by_payload o after ≡ granted w)
        × (w.id ≡ v.id)
        × (w.session_version ≡ v.session_version)
  reset-payload none v h = absurd (cc)
  reset-payload (some p) v h = by p.sub h
    where
      by :
          (sub : Option String)
          → by_sub p.sv sub users ≡ granted v
          → (w : User) × (by_sub p.sv sub after ≡ granted w)
            × (w.id ≡ v.id)
            × (w.session_version ≡ v.session_version)
      by none h = absurd (cc)
      by (some other) h =
          let (found, current) = by_version-granted p.sv (get_user_by_id other users) v h in
          let (w, found', same, version) = reset-found other v found in
          let current' : ltb (sv_of p.sv) w.session_version ≡ false =
            subst (λ x. ltb (sv_of p.sv) x ≡ false) (sym version) current in
          (w, rw (found', by_version, current'), same, version)

-- `reset_password_for_user` ends no session: a token that `get_current_user` accepts is accepted after it too, for the
-- same user under the same version.
pub reset_password_for_user-sessions :
    (config : AuthConfig) (is_digit : ℕ → Bool) (crypt : Crypt) (jose : Jose) (online : Bool)
    (now : Time) (token id : String) (password : Password) (blacklist : Blacklist)
    (users : List User) (v : User)
    → by_token jose online now token blacklist users ≡ granted v
    → (w : User) × (by_token jose online now token blacklist
          (reset_password_for_user config is_digit crypt id password users).1
        ≡ granted w)
      × (w.id ≡ v.id)
      × (w.session_version ≡ v.session_version)
unfolding by_token after
reset_password_for_user-sessions config is_digit crypt jose online now token id password blacklist
      users v h =
    elim (Bool-cases (revoked online now (truthy (get_token_jti jose now token)) blacklist)) [
      | inl y ↦ let h' = rw y at h in absurd (cc)
      | inr n ↦
          let (w, ok, same, version) =
            reset-payload config is_digit crypt id password users (jose.decode now token) v
              (rw n at h) in
          (w, rw n ok, same, version)
    ]
