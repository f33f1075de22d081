-- ===== src/Worker/Index/Sets.antt =====
-- What the commands of worker/infrastructure/inverted_index.py do to the membership tests of the sets in Redis.
use rest_api_plagiarism.Prelude.{
  String, str_eq, str_eq_iff, Bool, true, false, not, and-false, or_assoc, ◌&&◌, ◌||◌, ◌≡◌, refl,
  ap, List, [], ◌∷◌, inl, inr, Bool-cases,
}
use rest_api_plagiarism.Worker.Index.{
  hash_key, file_key, has, set_add, set_remove, Store, sadd, srem, sadd_file, srem_file, sadd_all,
}

has-equal : (x y : String) (xs : List String) → str_eq x y ≡ true → has x xs ≡ has y xs
has-equal x y xs h = ap (λ z. has z xs) ((str_eq_iff x y).0 h)

or_swap : (a b : Bool) → a || b ≡ b || a
or_swap true true = refl
or_swap true false = refl
or_swap false true = refl
or_swap false false = refl

pub has-set_add : (x m : String) (xs : List String) → has x (set_add m xs) ≡ has x xs || str_eq x m
unfolding has
has-set_add x m xs = elim (Bool-cases (has m xs)) [
  | inl h ↦ elim (Bool-cases (str_eq x m)) [
    | inl e ↦ let e' = has-equal x m xs e in rw (h, e, e', h)
    | inr e ↦ rw (h, e, or_swap (has x xs) false)
  ]
  | inr h ↦ rw h (or_swap (str_eq x m) (has x xs))
]

has-set_remove :
    (x m : String) (xs : List String) → has x (set_remove m xs) ≡ has x xs && not (str_eq x m)
unfolding has set_remove
has-set_remove x m [] = refl
has-set_remove x m (y ∷ ys) =
    let ih = has-set_remove x m ys in
    elim (Bool-cases (str_eq y m)) [
      | inl e ↦
          let e' : y ≡ m = (str_eq_iff y m).0 e in
          rw (e, ih)
            (elim (Bool-cases (str_eq x m)) [
              | inl t ↦
                  (let e'' : str_eq x y ≡ true = rw e' t in rw (t, e'') (and-false (has x ys)))
              | inr t ↦ (let e'' : str_eq x y ≡ false = rw e' t in rw (t, e'') refl)
            ])
      | inr e ↦
          rw (e, ih)
            (elim (Bool-cases (str_eq x y)) [
              | inl t ↦ let t' : str_eq x m ≡ false = rw ((str_eq_iff x y).0 t) e in rw (t, t')
              | inr t ↦ rw t
            ])
    ]

nothing_more : (a b c : Bool) → a ≡ a || ((b && false) && c)
nothing_more true b c = refl
nothing_more false true c = refl
nothing_more false false c = refl

absorb_or : (a b c : Bool) → (a || c) || (b && c) ≡ a || c
absorb_or true b c = refl
absorb_or false true true = refl
absorb_or false true false = refl
absorb_or false false true = refl
absorb_or false false false = refl

absorb_and : (a b c : Bool) → (a && not c) && not (b && c) ≡ a && not c
absorb_and false b c = refl
absorb_and true true true = refl
absorb_and true true false = refl
absorb_and true false true = refl
absorb_and true false false = refl

pub swap_inner : (a b c d : Bool) → a || ((b && c) && d) ≡ a || ((b && d) && c)
swap_inner true b c d = refl
swap_inner false false c d = refl
swap_inner false true true true = refl
swap_inner false true true false = refl
swap_inner false true false true = refl
swap_inner false true false false = refl

nothing_yet : (a b c : Bool) → a ≡ a || ((b && c) && false)
nothing_yet true b c = refl
nothing_yet false false c = refl
nothing_yet false true true = refl
nothing_yet false true false = refl

nothing_less : (a b c : Bool) → a ≡ a && not ((b && false) && c)
nothing_less false b c = refl
nothing_less true true c = refl
nothing_less true false c = refl

-- Whether the file stands in the set of the hash.
abbrev listed : Store → String → String → String → Bool
listed s l h f = has f (s (hash_key l h))

pub sadd_file-listed :
    (lang file : String) (hs : List String) (s : Store) (l h f : String)
    → listed (sadd_file lang file hs s) l h f
      ≡ listed s l h f || ((str_eq l lang && has h hs) && str_eq f file)
unfolding sadd_file has
sadd_file-listed lang file [] s l h f =
    nothing_more (listed s l h f) (str_eq l lang) (str_eq f file)
sadd_file-listed lang file (g ∷ hs) s l h f =
    let ih = sadd_file-listed lang file hs (sadd (hash_key lang g) file s) l h f in
    elim (Bool-cases (str_eq l lang)) [
      | inr n ↦ rw (ih, n)
      | inl y ↦ elim (Bool-cases (str_eq h g)) [
        | inr n ↦ rw (ih, y, n)
        | inl z ↦
            rw (ih, y, z, has-set_add f file (s (hash_key l h)))
              (absorb_or (listed s l h f) (has h hs) (str_eq f file))
      ]
    ]

pub srem_file-listed :
    (lang file : String) (hs : List String) (s : Store) (l h f : String)
    → listed (srem_file lang file hs s) l h f
      ≡ listed s l h f && not ((str_eq l lang && has h hs) && str_eq f file)
unfolding srem_file has
srem_file-listed lang file [] s l h f =
    nothing_less (listed s l h f) (str_eq l lang) (str_eq f file)
srem_file-listed lang file (g ∷ hs) s l h f =
    let ih = srem_file-listed lang file hs (srem (hash_key lang g) file s) l h f in
    elim (Bool-cases (str_eq l lang)) [
      | inr n ↦ rw (ih, n)
      | inl y ↦ elim (Bool-cases (str_eq h g)) [
        | inr n ↦ rw (ih, y, n)
        | inl z ↦
            rw (ih, y, z, has-set_remove f file (s (hash_key l h)))
              (absorb_and (listed s l h f) (has h hs) (str_eq f file))
      ]
    ]

-- The sets of the files are other keys.
pub sadd_file-file_key :
    (lang file : String) (hs : List String) (s : Store) (l f : String)
    → sadd_file lang file hs s (file_key l f) ≡ s (file_key l f)
unfolding sadd_file
sadd_file-file_key lang file [] s l f = refl
sadd_file-file_key lang file (h ∷ hs) s l f =
    sadd_file-file_key lang file hs (sadd (hash_key lang h) file s) l f

pub srem_file-file_key :
    (lang file : String) (hs : List String) (s : Store) (l f : String)
    → srem_file lang file hs s (file_key l f) ≡ s (file_key l f)
unfolding srem_file
srem_file-file_key lang file [] s l f = refl
srem_file-file_key lang file (h ∷ hs) s l f =
    srem_file-file_key lang file hs (srem (hash_key lang h) file s) l f

pub sadd_all-hash_key :
    (lang file : String) (ms : List String) (s : Store) (l h : String)
    → sadd_all (file_key lang file) ms s (hash_key l h) ≡ s (hash_key l h)
unfolding sadd_all
sadd_all-hash_key lang file [] s l h = refl
sadd_all-hash_key lang file (m ∷ ms) s l h =
    sadd_all-hash_key lang file ms (sadd (file_key lang file) m s) l h

-- Whether the hash stands in the set of the file.
abbrev recorded : Store → String → String → String → Bool
recorded s l h f = has h (s (file_key l f))

pub sadd_all-recorded :
    (lang file : String) (ms : List String) (s : Store) (l h f : String)
    → recorded (sadd_all (file_key lang file) ms s) l h f
      ≡ recorded s l h f || ((str_eq l lang && str_eq f file) && has h ms)
unfolding sadd_all has
sadd_all-recorded lang file [] s l h f =
    nothing_yet (recorded s l h f) (str_eq l lang) (str_eq f file)
sadd_all-recorded lang file (m ∷ ms) s l h f =
    let ih = sadd_all-recorded lang file ms (sadd (file_key lang file) m s) l h f in
    elim (Bool-cases (str_eq l lang)) [
      | inr n ↦ rw (ih, n)
      | inl y ↦ elim (Bool-cases (str_eq f file)) [
        | inr n ↦ rw (ih, y, n)
        | inl z ↦
            rw (ih, y, z, has-set_add h m (s (file_key l f)))
              (or_assoc (recorded s l h f) (str_eq h m) (has h ms))
      ]
    ]
