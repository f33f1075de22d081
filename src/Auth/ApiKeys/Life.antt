-- ===== src/Auth/ApiKeys/Life.antt =====
-- An API key of src/auth/service.py from its creation to its end, and the keys of other users.
use rest_api_plagiarism.Prelude.{
  ℕ, ◌≡◌, refl, sym, ap, ◌∙◌, inl, inr, String, str_eq, str_eq_refl, str_eq_iff, true, false,
  Option, none, some, List, [], ◌∷◌, ◌++◌, if◌then◌else◌, Bool-cases,
}
use rest_api_plagiarism.Auth.Users.{Time, User, get_user_by_id}
use rest_api_plagiarism.Auth.ApiKeys.{
  ApiKey, create_api_key, key_with_hash, get_api_key, is_expired, used, get_user_by_api_key,
  keys_of, may_revoke, revoke_api_key, expiry_after,
}

key_with_hash-append :
    (h : String) (keys : List ApiKey) (k : ApiKey)
    → key_with_hash h keys ≡ none
    → k.key_hash ≡ h
    → key_with_hash h (keys ++ k ∷ []) ≡ some k
unfolding key_with_hash
key_with_hash-append h [] k free e =
    let y : str_eq k.key_hash h ≡ true = rw e (str_eq_refl h) in rw y
key_with_hash-append h (j ∷ keys) k free e = elim (Bool-cases (str_eq j.key_hash h)) [
  | inl y ↦ let free' = rw y at free in absurd (cc)
  | inr n ↦ rw n (key_with_hash-append h keys k (rw n at free) e)
]

revoke_api_key-append :
    (u : User) (id : String) (keys : List ApiKey) (k : ApiKey)
    → get_api_key id keys ≡ none
    → may_revoke u id k ≡ true
    → revoke_api_key u id (keys ++ k ∷ []) ≡ (true, keys)
unfolding revoke_api_key get_api_key
revoke_api_key-append u id [] k free may = rw may
revoke_api_key-append u id (j ∷ keys) k free may = elim (Bool-cases (str_eq j.id id)) [
  | inl y ↦ let free' = rw y at free in absurd (cc)
  | inr n ↦ rw (n, revoke_api_key-append u id keys k (rw n at free) may)
]

-- A new key, under a fresh id and with a digest that no other key has, speaks for the user who made it as long as it
-- is not expired; the user can revoke it, and then it speaks for nobody.
pub create_api_key-life :
    (sha256 : String → String) (now later last : Time) (id raw_key : String) (u : User)
    (name : Option String) (days : Option ℕ) (users : List User) (keys : List ApiKey)
    → get_api_key id keys ≡ none
    → key_with_hash (sha256 raw_key) keys ≡ none
    → is_expired later (expiry_after now days) ≡ false
    → let keys' = (create_api_key sha256 now id raw_key u name days keys).1 in
      ((get_user_by_api_key sha256 later raw_key users keys').0 ≡ get_user_by_id u.id users)
      × ((revoke_api_key u id keys').0 ≡ true)
      × ((get_user_by_api_key sha256 last raw_key users (revoke_api_key u id keys').1).0 ≡ none)
unfolding create_api_key get_user_by_api_key
create_api_key-life sha256 now later last id raw_key u name days users keys fresh unused current =
    let key = (create_api_key sha256 now id raw_key u name days keys).0 in
    let found = key_with_hash-append (sha256 raw_key) keys key unused refl in
    let may : may_revoke u id key ≡ true = mine in
    let gone = revoke_api_key-append u id keys key fresh may in
    (rw (found, used, current), rw gone, rw (gone, unused, used))
  where
    mine :
        (if str_eq id id then if u.is_global_admin then true else str_eq u.id u.id else false)
        ≡ true
    mine = elim (Bool-cases u.is_global_admin) [
      | inl y ↦ rw (str_eq_refl id, y)
      | inr n ↦ rw (str_eq_refl id, n, str_eq_refl u.id)
    ]

-- A user who is no global admin revokes no key of anybody else.
pub revoke_api_key-others :
    (u : User) (id other : String) (keys : List ApiKey)
    → u.is_global_admin ≡ false
    → str_eq u.id other ≡ false
    → keys_of other (revoke_api_key u id keys).1 ≡ keys_of other keys
unfolding revoke_api_key keys_of
revoke_api_key-others u id other [] user ne = refl
revoke_api_key-others u id other (k ∷ keys) user ne = elim (Bool-cases (str_eq k.user_id other)) [
  | inl y ↦
      let at = (str_eq_iff k.user_id other).0 y in
      let theirs : may_revoke u id k ≡ false = not_mine at in
      rw (theirs, y)
        (ap (λ (ks : List ApiKey). k ∷ ks) (revoke_api_key-others u id other keys user ne))
  | inr n ↦ elim (Bool-cases (may_revoke u id k)) [
    | inl may ↦ rw (may, n)
    | inr not_may ↦ rw (not_may, n) (revoke_api_key-others u id other keys user ne)
  ]
]
  where
    not_mine : k.user_id ≡ other → may_revoke u id k ≡ false
    not_mine at = elim (Bool-cases (str_eq k.id id)) [
      | inr n ↦ rw n
      | inl y ↦
          let differs : str_eq k.user_id u.id ≡ false = elim (Bool-cases (str_eq k.user_id u.id)) [
            | inr n ↦ n
            | inl same ↦
                let e : u.id ≡ other = sym ((str_eq_iff k.user_id u.id).0 same) ∙ at in
                let ne' = rw (e, str_eq_refl other) at ne in absurd (cc)
          ] in
          rw (y, user, differs)
    ]
