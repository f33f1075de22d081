-- ===== src/Fingerprint/Feed.antt =====
-- Winnowing of numbered fingerprints in fingerprinting/core.py: feeding them to the deque one by one
-- against the scan of each window.
use rest_api_plagiarism.Prelude.{
  ℕ, zero, suc, ◌+◌, ◌-◌, ◌<◌, ◌≤◌, ◌≡◌, refl, ap, sym, ◌∙◌, Option, none, some, List, [], ◌∷◌,
  ◌++◌, map, arith, ltb, leb, ◌==◌, not, true, false, Bool-cases, if◌then◌else◌, inl, inr,
  List-cases, length, length-append, take, take-append-drop, length-drop, length-take-drop, drop,
  get_last?, append_assoc, append-nil,
}
use rest_api_plagiarism.Fingerprint.Core.{
  Fp, least, least_from, is_new, push_new, winnow_windows, winnow_fingerprints, pop_left, pop_right,
  Winnowing, emit_front,
}
use rest_api_plagiarism.Fingerprint.Minima.{
  minima, Numbered, minima-append, pop_left-minima, pop_left-minima_cons, minima_front,
}

abbrev pub hashes_of : List Fp → List ℕ
hashes_of = map (λ fp. fp.hash)

-- `_process_kgram` on a k-gram that is already put together.
unfoldable pub feed : ℕ → Winnowing → Fp → Winnowing
feed w s fp =
    let dq = pop_right fp.hash (pop_left fp.kgram_idx w s.dq) ++ fp ∷ [] in
    record {
      dq = dq;
      winnowed = if leb w (fp.kgram_idx + 1) then emit_front dq s.winnowed else s.winnowed;
    }

unfoldable pub feed_all : ℕ → Winnowing → List Fp → Winnowing
feed_all w s [] = s
feed_all w s (fp ∷ fps) = feed_all w (feed w s fp) fps

-- What `push_new` does to the hashes.
push_hash : List ℕ → ℕ → List ℕ
push_hash hs h =
    if elim (get_last? hs) [ none ↦ true | some l ↦ not (h == l) ] then hs ++ h ∷ [] else hs

pub hashes_of-append :
    (ws : List Fp) (fp : Fp) → hashes_of (ws ++ fp ∷ []) ≡ hashes_of ws ++ fp.hash ∷ []
hashes_of-append [] fp = refl
hashes_of-append (x ∷ ws) fp = ap (◌∷◌ x.hash) (hashes_of-append ws fp)

is_new-hashes :
    (ws : List Fp) (h : ℕ)
    → is_new ws h ≡ (elim (get_last? (hashes_of ws)) [ none ↦ true | some l ↦ not (h == l) ])
is_new-hashes [] h = refl
is_new-hashes (x ∷ []) h = refl
is_new-hashes (x ∷ y ∷ ws) h = is_new-hashes (y ∷ ws) h

hashes_of-push_new :
    (ws : List Fp) (fp : Fp) → hashes_of (push_new ws fp) ≡ push_hash (hashes_of ws) fp.hash
unfolding push_new push_hash
hashes_of-push_new ws fp = elim (Bool-cases (is_new ws fp.hash)) [
  | inl e ↦ rw (e, (rw is_new-hashes at e)) (hashes_of-append ws fp)
  | inr e ↦ rw (e, (rw is_new-hashes at e))
]

push_new-same :
    (ws ws' : List Fp) (fp fp' : Fp)
    → hashes_of ws ≡ hashes_of ws'
    → fp.hash ≡ fp'.hash
    → hashes_of (push_new ws fp) ≡ hashes_of (push_new ws' fp')
push_new-same ws ws' fp fp' e h = rw (hashes_of-push_new, hashes_of-push_new, e, h)

take-append_self {ℓ} :
    {A : Type ℓ} (xs ys : List A) (n : ℕ) → length xs ≡ n → take n (xs ++ ys) ≡ xs
take-append_self [] ys zero e = refl
take-append_self [] ys (suc n) e = absurd (omega arith)
take-append_self (x ∷ xs) ys zero e = absurd (omega arith)
take-append_self (x ∷ xs) ys (suc n) e = ap (◌∷◌ x) (take-append_self xs ys n (omega arith))

drop_next {ℓ} :
    {A : Type ℓ} (i : ℕ) (l : List A) (x : A) (xs : List A)
    → drop i l ≡ x ∷ xs
    → drop (suc i) l ≡ xs
drop_next zero l x xs e = rw e
drop_next (suc i) [] x xs e = cc
drop_next (suc i) (y ∷ l) x xs e = drop_next i l x xs e

Numbered-append_left : (i : ℕ) (xs ys : List Fp) → Numbered i (xs ++ ys) → Numbered i xs
Numbered-append_left i [] ys n = tt
Numbered-append_left i (x ∷ xs) ys n = (n.0, Numbered-append_left (suc i) xs ys n.1)

Numbered-middle :
    (i : ℕ) (xs : List Fp) (y : Fp) (ys : List Fp)
    → Numbered i (xs ++ y ∷ ys)
    → y.kgram_idx ≡ i + length xs
Numbered-middle i [] y ys n = omega arith
Numbered-middle i (x ∷ xs) y ys n = omega (arith, Numbered-middle (suc i) xs y ys n.1)

feed-minima :
    (w : ℕ) (s : Winnowing) (fp : Fp) (win : List Fp)
    → pop_left fp.kgram_idx w s.dq ≡ minima win
    → feed w s fp ≡ record {
      dq = minima (win ++ fp ∷ []);
      winnowed =
          if leb w (fp.kgram_idx + 1)
          then emit_front (minima (win ++ fp ∷ [])) s.winnowed
          else s.winnowed;
    }
unfolding feed
feed-minima w s fp win e = rw (e, minima-append fp win)

-- Before the first window is full, the deque holds the minima of what was seen.
feed_all_warm :
    (w : ℕ) (seen xs ws : List Fp)
    → Numbered 0 (seen ++ xs)
    → length seen + length xs < w
    → feed_all w (record { dq = minima seen; winnowed = ws }) xs
      ≡ record { dq = minima (seen ++ xs); winnowed = ws }
unfolding feed_all
feed_all_warm w seen [] ws n lt = rw append-nil
feed_all_warm w seen (x ∷ xs) ws n lt =
    let idx : x.kgram_idx ≡ 0 + length seen = Numbered-middle 0 seen x xs n in
    let kept : pop_left x.kgram_idx w (minima seen) ≡ minima seen =
      pop_left-minima 0 x.kgram_idx w seen (Numbered-append_left 0 seen (x ∷ xs) n) (omega arith) in
    let early : leb w (x.kgram_idx + 1) ≡ false = ground arith in
    let assoc : (seen ++ x ∷ []) ++ xs ≡ seen ++ x ∷ xs = append_assoc seen (x ∷ []) xs in
    rw (feed-minima w (record { dq = minima seen; winnowed = ws }) x seen kept, early, ← assoc)
      (feed_all_warm w (seen ++ x ∷ []) xs ws (rw assoc n)
        (omega (arith, length-append seen (x ∷ []))))

-- The outputs of the two algorithms have the same hashes.
abbrev pub Agrees : Option (List Fp) → List Fp → Type 0
Agrees scanned winnowed =
    (out : List Fp) × (scanned ≡ some out) × (hashes_of out ≡ hashes_of winnowed)

feed_full :
    (w i : ℕ) (s : Winnowing) (y x z : Fp) (win win' r : List Fp)
    → y.kgram_idx ≡ i + w
    → pop_left (i + w) (suc w) s.dq ≡ minima win
    → win ++ y ∷ [] ≡ x ∷ win'
    → minima (x ∷ win') ≡ z ∷ r
    → feed (suc w) s y ≡ record { dq = z ∷ r; winnowed = push_new s.winnowed z }
feed_full w i s y x z win win' r idx dq e em =
    let full : leb (suc w) (y.kgram_idx + 1) ≡ true = ground arith in
    rw (feed-minima (suc w) s y win (rw idx dq), full, e, em)

Agrees-of :
    (scanned scanned' : Option (List Fp)) (winnowed winnowed' : List Fp)
    → scanned ≡ scanned'
    → winnowed ≡ winnowed'
    → Agrees scanned' winnowed'
    → Agrees scanned winnowed
Agrees-of scanned scanned' winnowed winnowed' p q a = rw (p, q) a

pub winnow_windows_step :
    (fps ws : List Fp) (w rounds i : ℕ) (fp : Fp)
    → least (take w (drop i fps)) ≡ some fp
    → winnow_windows fps w (suc rounds) i ws ≡ winnow_windows fps w rounds (i + 1) (push_new ws fp)
unfolding winnow_windows
winnow_windows_step fps ws w rounds i fp e = rw (e, winnow_windows)

-- Once the window is full, each element that arrives completes one window of the scan.
winnow_windows-feed_all :
    (w i : ℕ) (fps win rest ws : List Fp) (s : Winnowing)
    → Numbered i (win ++ rest)
    → length win ≡ w
    → drop i fps ≡ win ++ rest
    → pop_left (i + w) (suc w) s.dq ≡ minima win
    → hashes_of ws ≡ hashes_of s.winnowed
    → Agrees (winnow_windows fps (suc w) (length rest) i ws) (feed_all (suc w) s rest).winnowed
unfolding winnow_windows feed_all
winnow_windows-feed_all w i fps win [] ws s n len d dq same = (ws, refl, same)
winnow_windows-feed_all w i fps win (y ∷ rest) ws s n len d dq same =
    elim (List-cases (win ++ y ∷ [])) [
      | inl e ↦ absurd (omega (arith, ap length e, length-append win (y ∷ [])))
      | inr (x, win', e) ↦
          let (z, r, em, eh) = minima_front x win' in
          let whole : win ++ y ∷ rest ≡ x ∷ (win' ++ rest) =
            sym (append_assoc win (y ∷ []) rest) ∙ ap (λ l. l ++ rest) e in
          let len' : length win' ≡ w = omega (arith, ap length e, length-append win (y ∷ [])) in
          let window : take (suc w) (drop i fps) ≡ x ∷ win' =
            rw (d, whole) (take-append_self (x ∷ win') rest (suc w) (omega arith)) in
          let idx : y.kgram_idx ≡ i + w = omega (arith, Numbered-middle i win y rest n) in
          let numbered : Numbered i (x ∷ (win' ++ rest)) = rw whole at n in
          let left : pop_left (suc i + w) (suc w) (z ∷ r) ≡ minima win' =
            ap (pop_left (suc i + w) (suc w)) (sym em)
            ∙ pop_left-minima_cons i (suc i + w) (suc w) x win'
                (Numbered-append_left i (x ∷ win') rest numbered) (omega arith) in
          let scan : least (take (suc w) (drop i fps)) ≡ some (least_from x win') =
            ap least window ∙ (unfold least in refl) in
          let i' : i + 1 ≡ suc i = omega arith in
          let s' : Winnowing = record { dq = z ∷ r; winnowed = push_new s.winnowed z } in
          Agrees-of _
            (winnow_windows fps (suc w) (length rest) (suc i) (push_new ws (least_from x win'))) _
            (feed_all (suc w) s' rest).winnowed
            (rw i' at (winnow_windows_step fps ws (suc w) (length rest) i (least_from x win') scan))
            (ap (λ t. (feed_all (suc w) t rest).winnowed)
              (feed_full w i s y x z win win' r idx dq e em))
            (winnow_windows-feed_all w (suc i) fps win' rest (push_new ws (least_from x win')) s'
              numbered.1 len' (drop_next i fps x (win' ++ rest) (d ∙ whole)) left
              (push_new-same ws s.winnowed (least_from x win') z same (sym eh)))
    ]

feed_all-append :
    (w : ℕ) (s : Winnowing) (xs ys : List Fp)
    → feed_all w s (xs ++ ys) ≡ feed_all w (feed_all w s xs) ys
unfolding feed_all
feed_all-append w s [] ys = refl
feed_all-append w s (x ∷ xs) ys = feed_all-append w (feed w s x) xs ys

abbrev pub start_state : Winnowing
start_state = record { dq = []; winnowed = [] }

feed_all_short :
    (w : ℕ) (fps : List Fp)
    → Numbered 0 fps
    → length fps < w
    → feed_all w start_state fps ≡ record { dq = minima fps; winnowed = [] }
unfolding minima
feed_all_short w fps n lt = feed_all_warm w [] fps [] n (omega arith)

feed_all-take :
    (w : ℕ) (fps : List Fp)
    → Numbered 0 fps
    → w ≤ length fps
    → feed_all (suc w) start_state (take w fps) ≡ record { dq = minima (take w fps); winnowed = [] }
feed_all-take w fps n le =
    let len : length (take w fps) ≡ w = length-take-drop w 0 fps (omega arith) in
    feed_all_short (suc w) (take w fps)
      (Numbered-append_left 0 (take w fps) (drop w fps) (rw (take-append-drop w fps) n))
      (omega arith)

-- On numbered fingerprints, feeding them to the deque one by one selects what the scan selects.
pub winnow_fingerprints-feed_all :
    (w : ℕ) (fps : List Fp)
    → Numbered 0 fps
    → Agrees (winnow_fingerprints fps (suc w)) (feed_all (suc w) start_state fps).winnowed
unfolding winnow_fingerprints
winnow_fingerprints-feed_all w fps n = elim (Bool-cases (ltb (length fps) (suc w))) [
  | inl short ↦
      let none_left : length fps + 1 - suc w ≡ 0 = ground arith in
      let warm = feed_all_short (suc w) fps n (ground arith) in
      rw (none_left, warm) ([], unfold winnow_windows in refl, refl)
  | inr long ↦
      let le : w ≤ length fps = ground arith in
      let win : List Fp = take w fps in
      let rest : List Fp = drop w fps in
      let whole : win ++ rest ≡ fps = take-append-drop w fps in
      let len : length win ≡ w = length-take-drop w 0 fps (omega arith) in
      let rounds : length fps + 1 - suc w ≡ length rest = omega (arith, length-drop w fps) in
      let numbered : Numbered 0 (win ++ rest) = rw whole n in
      let s : Winnowing = record { dq = minima win; winnowed = [] } in
      let fed : feed_all (suc w) start_state fps ≡ feed_all (suc w) s rest =
        ap (feed_all (suc w) start_state) (sym whole)
        ∙ feed_all-append (suc w) start_state win rest
        ∙ ap (λ t. feed_all (suc w) t rest) (feed_all-take w fps n le) in
      let kept : pop_left (0 + w) (suc w) (minima win) ≡ minima win =
        pop_left-minima 0 (0 + w) (suc w) win (Numbered-append_left 0 win rest numbered)
          (omega arith) in
      Agrees-of _ (winnow_windows fps (suc w) (length rest) 0 []) _
        (feed_all (suc w) s rest).winnowed (ap (λ r. winnow_windows fps (suc w) r 0 []) rounds)
        (ap (λ t. t.winnowed) fed)
        (winnow_windows-feed_all w 0 fps win rest [] s numbered len (sym whole) kept refl)
]
