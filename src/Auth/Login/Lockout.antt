-- ===== src/Auth/Login/Lockout.antt =====
-- How often `authenticate_user` of src/auth/service.py compares passwords with that of an account, and when
-- the lock of an account ends.
use rest_api_plagiarism.Prelude.{
  ℕ, ◌+◌, ◌-◌, ◌≤◌, ◌<◌, ◌≡◌, refl, sym, subst, ◌∙◌, inl, inr, arith, String, true, false, Option,
  none, some, List, [], ◌∷◌, leb, if◌then◌else◌, Bool-cases, All,
}
use rest_api_plagiarism.Auth.Users.{
  Time, User, user_with_email, Keyed, save_user-Keyed, user_with_email-save_user,
}
use rest_api_plagiarism.Auth.Login.{
  Password, Crypt, lockout, later_than, is_locked, failed, succeeded, attempted, authenticate_user,
}

-- A login request: when, and with which password.
abbrev pub Try : Type 0
Try = Time × Password

failed_keeps :
    (now : Time) (u : User)
    → ((failed now u).id ≡ u.id)
      × ((failed now u).email ≡ u.email)
      × ((failed now u).hashed_password ≡ u.hashed_password)
failed_keeps now u = elim (Bool-cases (leb 5 (u.failed_login_attempts + 1))) [
  | inl y ↦ rw y (refl, refl, refl)
  | inr n ↦ rw n (refl, refl, refl)
]

over :
    (now late : Time) (o : Option Time)
    → now ≤ late
    → later_than now o ≡ false
    → later_than late o ≡ false
over now late none le h = refl
over now late (some t) le h = ground arith

module _ (crypt : Crypt) where
  -- The requests for one address, one after the other, and the rows after them.
  unfoldable pub logins : String → List Try → List User → List User
  logins email [] users = users
  logins email ((now, password) ∷ tries) users =
      logins email tries (authenticate_user crypt now email password users).1

  -- 1 where the password of the request is compared with that of the account.
  abbrev pub compared : Time → Option User → ℕ
  compared now none = 0
  compared now (some u) = if is_locked now u then 0 else 1

  pub comparisons : String → List Try → List User → ℕ
  comparisons email [] users = 0
  comparisons email ((now, password) ∷ tries) users =
      compared now (user_with_email email users)
      + comparisons email tries (authenticate_user crypt now email password users).1

  -- The row after one request.
  abbrev next : Time → Password → User → User
  next now password u =
      if is_locked now u
      then u
      else if crypt.verify password u.hashed_password
      then succeeded u
      else failed now u

  authenticate_user-next :
      (now : Time) (email : String) (password : Password) (users : List User) (u : User)
      → Keyed users
      → user_with_email email users ≡ some u
      → Keyed (authenticate_user crypt now email password users).1
        × (user_with_email email (authenticate_user crypt now email password users).1
            ≡ some (next now password u))
  unfolding authenticate_user
  authenticate_user-next now email password users u k h =
      rw (h, attempted)
        (elim (Bool-cases (is_locked now u)) [
          | inl l ↦ rw l (k, h)
          | inr n ↦ elim (Bool-cases (crypt.verify password u.hashed_password)) [
            | inl y ↦
                rw (n, y)
                  (
                    save_user-Keyed (succeeded u) users k,
                    user_with_email-save_user email users u (succeeded u) k h refl refl,
                  )
            | inr w ↦
                rw (n, w)
                  (
                    save_user-Keyed (failed now u) users k,
                    user_with_email-save_user email users u (failed now u) k h
                        (failed_keeps now u).0 (failed_keeps now u).1,
                  )
          ]
        ])

  next-hashed_password :
      (now : Time) (password : Password) (u : User)
      → (next now password u).hashed_password ≡ u.hashed_password
  next-hashed_password now password u = elim (Bool-cases (is_locked now u)) [
    | inl l ↦ rw l
    | inr n ↦ elim (Bool-cases (crypt.verify password u.hashed_password)) [
      | inl y ↦ rw (n, y)
      | inr w ↦ rw (n, w) (failed_keeps now u).2
    ]
  ]

  -- All requests fall into the time of one lockout from `start` on, with a wrong password.
  abbrev pub Wrong : Time → String → List Try → Type 0
  Wrong start hashed tries =
      All (λ t. (start ≤ t.0) × (t.0 < start + lockout) × (crypt.verify t.1 hashed ≡ false)) tries

  -- The comparisons left: none while the lock lasts to the end, else up to five.
  left : Time → User → ℕ
  left start u =
      if later_than (start + lockout - 1) u.lockout_until then 0 else 5 - u.failed_login_attempts

  until_next :
      (last now : Time) (password : Password) (u : User)
      → now ≤ last
      → later_than (last + lockout) u.lockout_until ≡ false
      → later_than (last + lockout) (next now password u).lockout_until ≡ false
  until_next last now password u le free = elim (Bool-cases (is_locked now u)) [
    | inl l ↦ rw l free
    | inr n ↦ elim (Bool-cases (crypt.verify password u.hashed_password)) [
      | inl y ↦ rw (n, y)
      | inr w ↦ elim (Bool-cases (leb 5 (u.failed_login_attempts + 1))) [
        | inl y ↦ rw (n, w, y) (ground arith)
        | inr f ↦ rw (n, w, f) free
      ]
    ]
  ]

  logins-found :
      (last : Time) (email : String) (tries : List Try) (users : List User) (u : User)
      → Keyed users
      → user_with_email email users ≡ some u
      → All (λ t. t.0 ≤ last) tries
      → later_than (last + lockout) u.lockout_until ≡ false
      → (v : User) × (user_with_email email (logins email tries users) ≡ some v)
        × (v.hashed_password ≡ u.hashed_password)
        × (later_than (last + lockout) v.lockout_until ≡ false)
  unfolding logins
  logins-found last email [] users u k h all free = (u, h, refl, free)
  logins-found last email ((now, password) ∷ tries) users u k h (le, all) free =
      let (k', h') = authenticate_user-next now email password users u k h in
      let u' = next now password u in
      let (v, found, same, free') =
        logins-found last email tries (authenticate_user crypt now email password users).1 u' k' h'
          all (until_next last now password u le free) in
      (v, found, same ∙ next-hashed_password now password u, free')

-- Whatever requests were served until `last`, one after the other, fifteen minutes later the right password logs in, and the counter and
-- the lock of the account are cleared. The ids of the rows are distinct, and the account is not locked for
-- longer at the start.
pub authenticate_user-unlocks :
    (crypt : Crypt) (last now : Time) (email : String) (tries : List Try) (users : List User)
    (u : User) (password : Password)
    → Keyed users
    → user_with_email email users ≡ some u
    → All (λ t. t.0 ≤ last) tries
    → later_than (last + lockout) u.lockout_until ≡ false
    → last + lockout ≤ now
    → crypt.verify password u.hashed_password ≡ true
    → (v : User) × ((authenticate_user crypt now email password (logins crypt email tries users)).0
        ≡ some v)
      × (v.failed_login_attempts ≡ 0)
      × (v.lockout_until ≡ none)
unfolding authenticate_user
authenticate_user-unlocks crypt last now email tries users u password k h all free le right =
    let (v, found, same, free') = logins-found crypt last email tries users u k h all free in
    let open_now = over (last + lockout) now v.lockout_until le free' in
    let right' : crypt.verify password v.hashed_password ≡ true =
      subst (λ x. crypt.verify password x ≡ true) (sym same) right in
    (succeeded v, rw (found, attempted, open_now, right') refl, refl, refl)
