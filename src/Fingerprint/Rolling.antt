-- ===== src/Fingerprint/Rolling.antt =====
-- The rolling polynomial hash that fingerprinting/core.py and fingerprinting/winnow.py share.
use native.Mathlib.Nat.{
  mod-add-mod, add-mul-mod_self_right, div-add-mod, pow-suc, pow-zero, mul_comm, mod-lt,
  add-mod_right,
}
use rest_api_plagiarism.Prelude.{
  ℕ, ◌+◌, ◌-◌, ◌*◌, ◌/◌, ◌%◌, ◌^◌, ◌<◌, ◌≡◌, refl, ap, sym, ◌∙◌, List, [], ◌∷◌, ◌++◌, arith, length,
}

-- Python's `(h - y) % m`, which is never negative.
pub mod_sub : ℕ → ℕ → ℕ → ℕ
mod_sub h y m = (h + (m - y % m)) % m

-- `h = (h * base + t) % mod`
pub extend_hash : ℕ → ℕ → ℕ → ℕ → ℕ
extend_hash base m h t = (h * base + t) % m

-- `for i in range(k): h = (h * base + token_hashes[i]) % mod`
unfoldable pub seed_hash : ℕ → ℕ → ℕ → List ℕ → ℕ
seed_hash base m h [] = h
seed_hash base m h (t ∷ ts) = seed_hash base m (extend_hash base m h t) ts

-- One round of the rolling loop: `old` leaves the window, `t` enters it.
unfoldable pub roll : ℕ → ℕ → ℕ → ℕ → ℕ → ℕ → ℕ
unfolding mod_sub extend_hash
roll base m power h old t = extend_hash base m (mod_sub h (old * power) m) t

-- The polynomial of a window, with no modulus: what the hash is meant to be.
pub horner : ℕ → ℕ → List ℕ → ℕ
horner base acc [] = acc
horner base acc (t ∷ ts) = horner base (acc * base + t) ts

mul-mod : (x p m : ℕ) → (x * (p % m)) % m ≡ (x * p) % m
mul-mod x p m =
    let e : x * p ≡ x * (p % m) + x * (p / m) * m =
      omega (arith, ap (λ (t : ℕ). x * t) (div-add-mod p m)) in
    rw e (sym (add-mul-mod_self_right (x * (p % m)) (x * (p / m)) m))

mod_sub-add : (c v m : ℕ) → 0 < m → mod_sub ((c + v) % m) c m ≡ v % m
unfolding mod_sub
mod_sub-add c v m h =
    let r : c % m < m = mod-lt c h in
    let e : c + v + (m - c % m) ≡ v + m + c / m * m = omega (arith, div-add-mod c m) in
    rw (mod-add-mod (c + v) m (m - c % m), e, add-mul-mod_self_right (v + m) (c / m) m)
      (add-mod_right v m)

mod_sub-mod : (h y z m : ℕ) → y % m ≡ z % m → mod_sub h y m ≡ mod_sub h z m
unfolding mod_sub
mod_sub-mod h y z m e = rw e

extend_hash-mod : (base m h t : ℕ) → extend_hash base m (h % m) t ≡ (h * base + t) % m
unfolding extend_hash
extend_hash-mod base m h t =
    let e : h * base + t ≡ h % m * base + t + h / m * base * m =
      omega (arith, ap (λ (u : ℕ). u * base) (div-add-mod h m)) in
    rw e (sym (add-mul-mod_self_right (h % m * base + t) (h / m * base) m))

pub seed_hash-eq-horner :
    (base m h : ℕ) (ts : List ℕ) → seed_hash base m (h % m) ts ≡ horner base h ts % m
unfolding seed_hash horner
seed_hash-eq-horner base m h [] = refl
seed_hash-eq-horner base m h (t ∷ ts) =
    rw (extend_hash-mod base m h t) (seed_hash-eq-horner base m (h * base + t) ts)

pub horner-acc :
    (base acc : ℕ) (ts : List ℕ) → horner base acc ts ≡ acc * base ^ length ts + horner base 0 ts
unfolding horner
horner-acc base acc [] = rw pow-zero (omega arith)
horner-acc base acc (t ∷ ts) = rw (pow-suc base (length ts)) (
    omega (
      arith,
      horner-acc base (acc * base + t) ts,
      horner-acc base (0 * base + t) ts,
      mul_comm (base ^ length ts) base,
    ))

pub horner-append :
    (base acc : ℕ) (ts : List ℕ) (t : ℕ)
    → horner base acc (ts ++ t ∷ []) ≡ horner base acc ts * base + t
unfolding horner
horner-append base acc [] t = refl
horner-append base acc (s ∷ ts) t = horner-append base (acc * base + s) ts t

-- Rolling the hash of a window gives the hash of the next window.
pub roll-eq-horner :
    (base m x : ℕ) (w : List ℕ) (t : ℕ)
    → 0 < m
    → roll base m (base ^ length w % m) (horner base 0 (x ∷ w) % m) x t
      ≡ horner base 0 (w ++ t ∷ []) % m
unfolding roll
roll-eq-horner base m x w t h =
    let c : ℕ = x * base ^ length w in
    let v : ℕ = horner base 0 w in
    let whole : horner base 0 (x ∷ w) ≡ c + v =
      unfold horner in omega (arith, horner-acc base (0 * base + x) w) in
    let drops : mod_sub ((c + v) % m) (x * (base ^ length w % m)) m ≡ v % m =
      mod_sub-mod ((c + v) % m) (x * (base ^ length w % m)) c m (mul-mod x (base ^ length w) m)
      ∙ mod_sub-add c v m h in
    rw (whole, drops, extend_hash-mod base m v t, horner-append base 0 w t)
