-- ===== src/Auth/Sessions/Revoked.antt =====
-- Which tokens src/auth refuses after a refresh, a logout, or a change of the password.
use rest_api_plagiarism.Prelude.{
  ℕ, ◌+◌, ◌-◌, ◌*◌, ◌/◌, ◌≤◌, ◌≡◌, refl, sym, subst, inl, inr, arith, String, str_eq_refl, true,
  false, Option, none, some, List, ltb, ◌==◌, Bool-cases,
}
use rest_api_plagiarism.Auth.Users.{Time, second, User}
use rest_api_plagiarism.Auth.Tokens.{
  Blacklist, blacklist_token, is_token_blacklisted, Payload, Jose, TokenSettings, TokenResponse,
  jti_in, expiry_in, late_expiry,
}
use rest_api_plagiarism.Auth.Sessions.{
  truthy, token_revoked, refused, revoked, by_token, refresh_user, rotated, refreshed, is_kind,
  refresh_payload_user, respond, refresh_access_token, logged_out, logout,
}

-- An entry of the blacklist lasts until a second before the token expires.
blacklist_token-lasts :
    (now later e : Time) (jti : String) (blacklist : Blacklist)
    → now ≤ later
    → later + second ≤ e * second
    → is_token_blacklisted true later jti (blacklist_token true now jti (e * second) blacklist)
      ≡ true
unfolding is_token_blacklisted blacklist_token
blacklist_token-lasts now later e jti blacklist le early =
    let some_time : ltb 0 ((e * second - now) / second) ≡ true = ground arith in
    let long : ltb later (now + (e * second - now) / second * second) ≡ true = ground arith in
    rw (some_time, str_eq_refl jti, long)

module _ (jose : Jose) (settings : TokenSettings) (token jti : String) (p : Payload) (later : Time)
    (reads : jose.decode later token ≡ some p) (has_jti : truthy p.jti ≡ some jti) where
  -- Neither `get_current_user` nor `refresh_access_token` accepts a token that is on the blacklist.
  on_blacklist :
      (a b : String) (blacklist : Blacklist) (users : List User)
      → is_token_blacklisted true later jti blacklist ≡ true
      → (by_token jose true later token blacklist users ≡ refused token_revoked)
        × ((refresh_access_token jose settings true later a b token blacklist users).0 ≡ none)
  unfolding by_token refresh_access_token
  on_blacklist a b blacklist users listed = (
    rw (reads, jti_in, has_jti, revoked, listed),
    elim (Bool-cases (is_kind "refresh" p.kind)) [
      | inr n ↦ rw (reads, refresh_payload_user, n)
      | inl y ↦ rw (reads, refresh_payload_user, y, has_jti, refreshed, listed)
    ],
  )

expiry_in-later :
    (e later : Time) → later + second ≤ e * second → expiry_in (some e) ≡ some (e * second)
expiry_in-later e later h = let n : (e == 0) ≡ false = ground arith in rw n

-- A refresh that gives new tokens has put the old one on the blacklist.
refresh-blacklists :
    (jose : Jose) (settings : TokenSettings) (now : Time) (a b token jti : String) (p : Payload)
    (expiry : Time) (blacklist : Blacklist) (users : List User) (r : TokenResponse)
    → jose.decode now token ≡ some p
    → truthy p.jti ≡ some jti
    → expiry_in p.exp ≡ some expiry
    → (refresh_access_token jose settings true now a b token blacklist users).0 ≡ some r
    → (refresh_access_token jose settings true now a b token blacklist users).1
      ≡ blacklist_token true now jti expiry blacklist
unfolding refresh_access_token
refresh-blacklists jose settings now a b token jti p expiry blacklist users r reads has_jti has_exp
      h =
    elim (Bool-cases (is_kind "refresh" p.kind)) [
      | inr n ↦ let h' = rw (reads, refresh_payload_user, n) at h in absurd (cc)
      | inl y ↦ elim (Bool-cases (is_token_blacklisted true now jti blacklist)) [
        | inl l ↦
            let h' = rw (reads, refresh_payload_user, y, has_jti, refreshed, l) at h in absurd (cc)
        | inr free ↦
            rw (reads, refresh_payload_user, y, has_jti, refreshed, free, has_exp)
              (responded (refresh_user (truthy p.sub) (truthy p.email) p.sv users)
                (blacklist_token true now jti expiry blacklist))
      ]
    ]
  where
    responded : (o : Option User) (bl : Blacklist) → (respond jose settings now a b (o, bl)).1 ≡ bl
    responded none bl = refl
    responded (some u) bl = refl

-- A refresh token is good for one refresh: after a refresh with it has given new tokens, another refresh with
-- it gives none, and `get_current_user` refuses it, at any later time up to a second before its expiry. Redis
-- answers, and the token has an id and an expiry.
pub refresh_access_token-once :
    (jose : Jose) (settings : TokenSettings) (now later : Time) (a b c d token jti : String)
    (p : Payload) (e : ℕ) (blacklist : Blacklist) (users users' : List User) (r : TokenResponse)
    → jose.decode now token ≡ some p
    → jose.decode later token ≡ some p
    → truthy p.jti ≡ some jti
    → p.exp ≡ some e
    → now ≤ later
    → later + second ≤ e * second
    → (refresh_access_token jose settings true now a b token blacklist users).0 ≡ some r
    → let blacklist' = (refresh_access_token jose settings true now a b token blacklist users).1 in
      (by_token jose true later token blacklist' users' ≡ refused token_revoked)
      × ((refresh_access_token jose settings true later c d token blacklist' users').0 ≡ none)
refresh_access_token-once jose settings now later a b c d token jti p e blacklist users users' r
      reads again has_jti has_exp le early h =
    let expiry : expiry_in p.exp ≡ some (e * second) = rw has_exp (expiry_in-later e later early) in
    let listed =
      refresh-blacklists jose settings now a b token jti p (e * second) blacklist users r reads
        has_jti expiry h in
    let lasts = blacklist_token-lasts now later e jti blacklist le early in
    on_blacklist jose settings token jti p later again has_jti c d
      (refresh_access_token jose settings true now a b token blacklist users).1 users'
      (subst (λ bl. is_token_blacklisted true later jti bl ≡ true) (sym listed) lasts)

-- After a logout the token is accepted neither for a request nor for a refresh, at any later time up to a second
-- before its expiry. Redis answers, and the token has an id and an expiry.
pub logout-refused :
    (jose : Jose) (settings : TokenSettings) (now later : Time) (c d token jti : String)
    (p : Payload) (e : ℕ) (blacklist : Blacklist) (users : List User)
    → jose.decode now token ≡ some p
    → jose.decode_late token ≡ some p
    → jose.decode later token ≡ some p
    → truthy p.jti ≡ some jti
    → p.exp ≡ some e
    → now ≤ later
    → later + second ≤ e * second
    → let blacklist' = logout jose true now token blacklist in
      (by_token jose true later token blacklist' users ≡ refused token_revoked)
      × ((refresh_access_token jose settings true later c d token blacklist' users).0 ≡ none)
unfolding logout
logout-refused jose settings now later c d token jti p e blacklist users reads reads_late again
      has_jti has_exp le early =
    let lasts = blacklist_token-lasts now later e jti blacklist le early in
    let expiry : expiry_in p.exp ≡ some (e * second) = rw has_exp (expiry_in-later e later early) in
    let listed : is_token_blacklisted true later jti (logout jose true now token blacklist) ≡ true =
      rw (reads, jti_in, has_jti, reads_late, late_expiry, expiry, logged_out, rotated) lasts in
    on_blacklist jose settings token jti p later again has_jti c d
      (logout jose true now token blacklist) users listed
