-- ===== src/Auth/Users.antt =====
-- src/auth/models.py, and the operations of src/auth/service.py that read and change one row of `users`.
-- `normalize` stands for `email.lower().strip()`, which goes by Unicode tables.
use rest_api_plagiarism.Prelude.{
  some-injective, str_eq_flip, ℕ, String, str_eq, Bool, true, false, Option, none, some, List, [],
  ◌∷◌, leb, if◌then◌else◌, ◌≡◌, refl, sym, ap, subst, ◌∙◌, inl, inr, Bool-cases, All, str_eq_iff,
  str_eq_refl,
}

abbrev pub Time : Type 0
Time = ℕ

abbrev pub second : ℕ
second = 1000000

pub data UserRole : Type 0 where
  viewer reviewer admin : UserRole

pub record User : Type 0 where
  pub id : String
  pub email : String
  pub username : Option String
  pub hashed_password : String
  pub is_global_admin : Bool
  pub failed_login_attempts : ℕ
  pub lockout_until : Option Time
  pub session_version : ℕ
  pub last_login : Option Time

-- The property `role` of a user.
abbrev pub role : User → UserRole
role u = if u.is_global_admin then admin else viewer

-- `get_user_role_hierarchy` and `has_minimum_role`
abbrev pub hierarchy : UserRole → ℕ
hierarchy viewer = 1
hierarchy reviewer = 2
hierarchy admin = 3

abbrev pub has_minimum_role : UserRole → UserRole → Bool
has_minimum_role user_role required_role = leb (hierarchy required_role) (hierarchy user_role)

-- `select(User).where(User.id == user_id)` and `scalar_one_or_none`, the keys being unique.
unfoldable pub get_user_by_id : String → List User → Option User
get_user_by_id id [] = none
get_user_by_id id (u ∷ users) = if str_eq u.id id then some u else get_user_by_id id users

-- `select(User).where(User.email == email)`
unfoldable pub user_with_email : String → List User → Option User
user_with_email email [] = none
user_with_email email (u ∷ users) =
    if str_eq u.email email then some u else user_with_email email users

-- The commit of a changed row.
unfoldable pub save_user : User → List User → List User
save_user v [] = []
save_user v (u ∷ users) = if str_eq u.id v.id then v ∷ users else u ∷ save_user v users

unfoldable pub without_user : String → List User → List User
without_user id [] = []
without_user id (u ∷ users) = if str_eq u.id id then users else u ∷ without_user id users

abbrev pub saved : Option User → (User → User) → List User → Option User × List User
saved none change users = (none, users)
saved (some u) change users = (some (change u), save_user (change u) users)

unfoldable pub get_user_by_email : (String → String) → String → List User → Option User
get_user_by_email normalize email users = user_with_email (normalize email) users

unfoldable update_last_login : Time → String → List User → List User
update_last_login now id users =
    (saved (get_user_by_id id users) (λ u. record u { last_login = some now }) users).1

unfoldable set_global_admin : String → Bool → List User → Option User × List User
set_global_admin id is_admin users =
    saved (get_user_by_id id users) (λ u. record u { is_global_admin = is_admin }) users

abbrev pub deleted : Option User → List User → Bool × List User
deleted none users = (false, users)
deleted (some u) users = (true, without_user u.id users)

unfoldable delete_user : String → List User → Bool × List User
delete_user id users = deleted (get_user_by_id id users) users

abbrev pub given : Option String → String → String
given none old = old
given (some s) old = s

abbrev pub given_or : Option String → Option String → Option String
given_or none old = old
given_or (some s) old = some s

unfoldable update_user_profile :
    String → Option String → Option String → List User → Option User × List User
update_user_profile id username email users =
    saved (get_user_by_id id users)
      (λ u. record u { username = given_or username u.username; email = given email u.email }) users

pub get_user_by_id-id :
    (id : String) (users : List User) (u : User) → get_user_by_id id users ≡ some u → u.id ≡ id
unfolding get_user_by_id
get_user_by_id-id id [] u h = absurd (cc)
get_user_by_id-id id (w ∷ users) u h = elim (Bool-cases (str_eq w.id id)) [
  | inl e ↦
      let same : w ≡ u = some-injective (rw e at h) in
      let at = (str_eq_iff w.id id).0 e in sym (ap (λ x. x.id) same) ∙ at
  | inr n ↦ get_user_by_id-id id users u (rw n at h)
]

-- After a commit the row is the changed one.
pub get_user_by_id-save_user :
    (id : String) (users : List User) (u v : User)
    → get_user_by_id id users ≡ some u
    → v.id ≡ id
    → get_user_by_id id (save_user v users) ≡ some v
unfolding get_user_by_id save_user
get_user_by_id-save_user id [] u v h e = absurd (cc)
get_user_by_id-save_user id (w ∷ users) u v h e = elim (Bool-cases (str_eq w.id id)) [
  | inl y ↦
      let row : str_eq w.id v.id ≡ true = subst (λ x. str_eq w.id x ≡ true) (sym e) y in
      let self : str_eq v.id id ≡ true = subst (λ x. str_eq x id ≡ true) (sym e) (str_eq_refl id) in
      rw (row, self)
  | inr n ↦
      let row : str_eq w.id v.id ≡ false = subst (λ x. str_eq w.id x ≡ false) (sym e) n in
      rw (row, n) (get_user_by_id-save_user id users u v (rw n at h) e)
]

-- The rows of other users are as before.
pub get_user_by_id-save_other :
    (id : String) (v : User) (users : List User)
    → str_eq v.id id ≡ false
    → get_user_by_id id (save_user v users) ≡ get_user_by_id id users
unfolding get_user_by_id save_user
get_user_by_id-save_other id v [] h = refl
get_user_by_id-save_other id v (w ∷ users) h = elim (Bool-cases (str_eq w.id v.id)) [
  | inl y ↦ let at = (str_eq_iff w.id v.id).0 y in rw (y, h, at, h)
  | inr n ↦ rw n (
      ap (λ (o : Option User). if str_eq w.id id then some w else o)
        (get_user_by_id-save_other id v users h))
]

-- The primary key: no two rows have the same id.
abbrev pub Keyed : List User → Type 0
Keyed [] = Unit
Keyed (u ∷ users) = All (λ w. str_eq w.id u.id ≡ false) users × Keyed users

found_is_keyed :
    (email id : String) (users : List User) (u : User)
    → All (λ w. str_eq w.id id ≡ false) users
    → user_with_email email users ≡ some u
    → str_eq u.id id ≡ false
unfolding user_with_email
found_is_keyed email id [] u k h = absurd (cc)
found_is_keyed email id (w ∷ users) u (k, ks) h = elim (Bool-cases (str_eq w.email email)) [
  | inl y ↦
      let same : w ≡ u = some-injective (rw y at h) in subst (λ x. str_eq x.id id ≡ false) same k
  | inr n ↦ found_is_keyed email id users u ks (rw n at h)
]

pub user_with_email-email :
    (email : String) (users : List User) (u : User)
    → user_with_email email users ≡ some u
    → u.email ≡ email
unfolding user_with_email
user_with_email-email email [] u h = absurd (cc)
user_with_email-email email (w ∷ users) u h = elim (Bool-cases (str_eq w.email email)) [
  | inl e ↦
      let same : w ≡ u = some-injective (rw e at h) in
      let at = (str_eq_iff w.email email).0 e in sym (ap (λ x. x.email) same) ∙ at
  | inr n ↦ user_with_email-email email users u (rw n at h)
]

-- After the commit of a row that was found by its address, the address finds the changed row.
pub user_with_email-save_user :
    (email : String) (users : List User) (u v : User)
    → Keyed users
    → user_with_email email users ≡ some u
    → v.id ≡ u.id
    → v.email ≡ u.email
    → user_with_email email (save_user v users) ≡ some v
unfolding user_with_email save_user
user_with_email-save_user email [] u v k h e a = absurd (cc)
user_with_email-save_user email (w ∷ users) u v (k, ks) h e a =
    elim (Bool-cases (str_eq w.email email)) [
      | inl y ↦
          let same : w ≡ u = some-injective (rw y at h) in
          let id_same : w.id ≡ v.id = ap (λ x. x.id) same ∙ sym e in
          let mail : v.email ≡ email =
            a ∙ sym (ap (λ x. x.email) same) ∙ (str_eq_iff w.email email).0 y in
          rw (id_same, str_eq_refl v.id, mail, str_eq_refl email)
      | inr n ↦
          let h' = rw n at h in
          let other : str_eq u.id w.id ≡ false = found_is_keyed email w.id users u k h' in
          let flip : str_eq w.id v.id ≡ false = rw e (str_eq_flip u.id w.id other) in
          rw (flip, n) (user_with_email-save_user email users u v ks h' e a)
    ]

save_user-All :
    (P : User → Type 0) (v : User) (users : List User)
    → P v
    → All P users
    → All P (save_user v users)
unfolding save_user
save_user-All P v [] p ps = tt
save_user-All P v (u ∷ users) p (q, qs) = elim (Bool-cases (str_eq u.id v.id)) [
  | inl y ↦ rw y (p, qs)
  | inr n ↦ rw n (q, save_user-All P v users p qs)
]

-- A commit keeps the primary key.
pub save_user-Keyed : (v : User) (users : List User) → Keyed users → Keyed (save_user v users)
unfolding save_user
save_user-Keyed v [] k = tt
save_user-Keyed v (u ∷ users) (k, ks) = elim (Bool-cases (str_eq u.id v.id)) [
  | inl y ↦
      let at = (str_eq_iff u.id v.id).0 y in
      let k' = subst (λ x. All (λ w. str_eq w.id x ≡ false) users) at k in rw y (k', ks)
  | inr n ↦ rw n (
    save_user-All (λ w. str_eq w.id u.id ≡ false) v users (str_eq_flip u.id v.id n) k,
    save_user-Keyed v users ks,
  )
]
