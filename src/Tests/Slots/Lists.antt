-- ===== src/Tests/Slots/Lists.antt =====
-- Lists of slots: reading, writing, searching and walking.
use mathlib.Core.Logic.{◌≢◌}
use neocache.Prelude.{
  ℕ, zero, suc, ◌+◌, ◌≤◌, ◌≡◌, refl, ap, Bool, true, ◌&&◌, Option, none, some, List, [], ◌∷◌, ◌++◌,
  length, to_nat, All, IsDistinct, arith, if◌then◌else◌, Option-cases, inl, inr, Bool-cases,
}
use neocache.Table.{Probe, occupied, vacant, weigh, walk}

module _ {E : Type 0} where
  abbrev pub get : List (Option E) → ℕ → Option E
  get [] b = none
  get (x ∷ t) zero = x
  get (x ∷ t) (suc b) = get t b

  abbrev pub put : List (Option E) → ℕ → Option E → List (Option E)
  put [] b e = []
  put (x ∷ t) zero e = e ∷ t
  put (x ∷ t) (suc b) e = x ∷ put t b e

  abbrev pub somes : List (Option E) → List E
  somes [] = []
  somes (none ∷ t) = somes t
  somes (some e ∷ t) = e ∷ somes t

  -- The indices of the full slots, counted from `n`.
  abbrev pub full_from : ℕ → List (Option E) → List ℕ
  full_from n [] = []
  full_from n (none ∷ t) = full_from (suc n) t
  full_from n (some e ∷ t) = n ∷ full_from (suc n) t

  abbrev pub find_from : ℕ → (E → Bool) → List (Option E) → Option ℕ
  find_from n eq [] = none
  find_from n eq (none ∷ t) = find_from (suc n) eq t
  find_from n eq (some e ∷ t) = if eq e then some n else find_from (suc n) eq t

  find_from-some :
      (n : ℕ) (eq : E → Bool) (t : List (Option E)) (b : ℕ)
      → find_from n eq t ≡ some b
      → (i : ℕ) × (b ≡ n + i) × ((e : E) × (get t i ≡ some e) × (eq e ≡ true))
  find_from-some n eq [] b h = cc
  find_from-some n eq (none ∷ t) b h =
      let (i, at, found) = find_from-some (suc n) eq t b h in (suc i, omega arith, found)
  find_from-some n eq (some e ∷ t) b h = elim (Bool-cases (eq e)) [
    | inl here ↦ (0, ground arith, (e, refl, here))
    | inr there ↦
        let (i, at, found) = find_from-some (suc n) eq t b (rw there at h) in
        (suc i, omega arith, found)
  ]

  pub find_from-none :
      (n : ℕ) (eq : E → Bool) (p : E → Bool) (t : List (Option E))
      → find_from n eq t ≡ none
      → weigh (λ e. to_nat (p e && eq e)) (somes t) ≡ 0
  unfolding weigh
  find_from-none n eq p [] h = refl
  find_from-none n eq p (none ∷ t) h = find_from-none (suc n) eq p t h
  find_from-none n eq p (some e ∷ t) h = elim (Bool-cases (eq e)) [
    | inl here ↦ absurd (ground arith)
    | inr there ↦ ground (arith, find_from-none (suc n) eq p t (rw there at h))
  ]

  pub put-somes :
      (t : List (Option E)) (b : ℕ) (e f : E) (w : E → ℕ)
      → get t b ≡ some e
      → weigh w (somes (put t b (some f))) + w e ≡ weigh w (somes t) + w f
  unfolding weigh
  put-somes [] b e f w h = cc
  put-somes (none ∷ t) zero e f w h = cc
  put-somes (some x ∷ t) zero e f w h = ground arith
  put-somes (none ∷ t) (suc b) e f w h = put-somes t b e f w h
  put-somes (some x ∷ t) (suc b) e f w h = omega (arith, put-somes t b e f w h)

  pub drop-somes :
      (t : List (Option E)) (b : ℕ) (e : E) (w : E → ℕ)
      → get t b ≡ some e
      → weigh w (somes (put t b none)) + w e ≡ weigh w (somes t)
  unfolding weigh
  drop-somes [] b e w h = cc
  drop-somes (none ∷ t) zero e w h = cc
  drop-somes (some x ∷ t) zero e w h = ground arith
  drop-somes (none ∷ t) (suc b) e w h = drop-somes t b e w h
  drop-somes (some x ∷ t) (suc b) e w h = omega (arith, drop-somes t b e w h)

  pub push-somes :
      (t : List (Option E)) (e : E) (w : E → ℕ)
      → weigh w (somes (t ++ some e ∷ [])) ≡ weigh w (somes t) + w e
  unfolding weigh
  push-somes [] e w = omega arith
  push-somes (none ∷ t) e w = push-somes t e w
  push-somes (some x ∷ t) e w = omega (arith, push-somes t e w)

  pub get-push : (t : List (Option E)) (e : E) → get (t ++ some e ∷ []) (length t) ≡ some e
  get-push [] e = refl
  get-push (x ∷ t) e = get-push t e

  pub get-push_ne :
      (t : List (Option E)) (e : E) (c : ℕ) → c ≢ length t → get (t ++ some e ∷ []) c ≡ get t c
  get-push_ne [] e zero h = absurd (h refl)
  get-push_ne [] e (suc c) h = refl
  get-push_ne (x ∷ t) e zero h = refl
  get-push_ne (x ∷ t) e (suc c) h = get-push_ne t e c (λ p. h (ap suc p))

  pub get-put :
      (t : List (Option E)) (b : ℕ) (e : E) (x : Option E)
      → get t b ≡ some e
      → get (put t b x) b ≡ x
  get-put [] b e x h = cc
  get-put (y ∷ t) zero e x h = refl
  get-put (y ∷ t) (suc b) e x h = get-put t b e x h

  pub get-drop : (t : List (Option E)) (b : ℕ) → get (put t b none) b ≡ none
  get-drop [] b = refl
  get-drop (y ∷ t) zero = refl
  get-drop (y ∷ t) (suc b) = get-drop t b

  pub get-put_ne :
      (t : List (Option E)) (b c : ℕ) (x : Option E) → c ≢ b → get (put t b x) c ≡ get t c
  get-put_ne [] b c x h = refl
  get-put_ne (y ∷ t) zero zero x h = absurd (h refl)
  get-put_ne (y ∷ t) zero (suc c) x h = refl
  get-put_ne (y ∷ t) (suc b) zero x h = refl
  get-put_ne (y ∷ t) (suc b) (suc c) x h = get-put_ne t b c x (λ p. h (ap suc p))

  pub full_from-walk :
      (n : ℕ) (t : List (Option E)) (at : ℕ → Option E)
      → ((i : ℕ) → at (n + i) ≡ get t i)
      → somes t ≡ walk at (full_from n t)
  unfolding walk
  full_from-walk n [] at h = refl
  full_from-walk n (none ∷ t) at h =
      full_from-walk (suc n) t at
        (λ i. let e : suc n + i ≡ n + suc i = omega arith in rw e (h (suc i)))
  full_from-walk n (some x ∷ t) at h =
      let e₀ : n + 0 ≡ n = omega arith in
      let here : at n ≡ some x = rw e₀ at (h 0) in
      rw here (
        ap (◌∷◌ x) (
          full_from-walk (suc n) t at
            (λ i. let e : suc n + i ≡ n + suc i = omega arith in rw e (h (suc i)))))

  pub full_from-full :
      (n : ℕ) (t : List (Option E)) (at : ℕ → Option E)
      → ((i : ℕ) → at (n + i) ≡ get t i)
      → All (λ b. (e : E) × (at b ≡ some e)) (full_from n t)
  full_from-full n [] at h = tt
  full_from-full n (none ∷ t) at h =
      full_from-full (suc n) t at
        (λ i. let e : suc n + i ≡ n + suc i = omega arith in rw e (h (suc i)))
  full_from-full n (some x ∷ t) at h =
      let e₀ : n + 0 ≡ n = omega arith in
      (
        (x, rw e₀ at (h 0)),
        full_from-full (suc n) t at
            (λ i. let e : suc n + i ≡ n + suc i = omega arith in rw e (h (suc i))),
      )

  full_from-above : (m n : ℕ) (t : List (Option E)) → suc m ≤ n → All (λ y. y ≢ m) (full_from n t)
  full_from-above m n [] h = tt
  full_from-above m n (none ∷ t) h = full_from-above m (suc n) t (omega arith)
  full_from-above m n (some x ∷ t) h =
      ((λ p. omega arith), full_from-above m (suc n) t (omega arith))

  pub full_from-IsDistinct : (n : ℕ) (t : List (Option E)) → IsDistinct (full_from n t)
  full_from-IsDistinct n [] = tt
  full_from-IsDistinct n (none ∷ t) = full_from-IsDistinct (suc n) t
  full_from-IsDistinct n (some x ∷ t) =
      (full_from-above n (suc n) t (omega arith), full_from-IsDistinct (suc n) t)

  abbrev pub probe : List (Option E) → (E → Bool) → List (Option E) × Probe ℕ (Unit {0})
  probe t eq = (t, elim (find_from 0 eq t) [ none ↦ vacant tt | some b ↦ occupied b ])

  pub probe-occupied :
      (t : List (Option E)) (eq : E → Bool) (b : ℕ)
      → (probe t eq).1 ≡ occupied b
      → (e : E) × (get t b ≡ some e) × (eq e ≡ true)
  probe-occupied t eq b h = elim (Option-cases (find_from 0 eq t)) [
    | inl miss ↦ absurd (ground arith)
    | inr (c, hit) ↦
        let (i, at, found) = find_from-some 0 eq t c hit in
        let e : b ≡ i = ground (arith, at) in rw e found
  ]

  pub probe-vacant :
      (p : E → Bool) (t : List (Option E)) (eq : E → Bool) (s : Unit {0})
      → (probe t eq).1 ≡ vacant s
      → weigh (λ e. to_nat (p e && eq e)) (somes t) ≡ 0
  probe-vacant p t eq s h = elim (Option-cases (find_from 0 eq t)) [
    | inl miss ↦ find_from-none 0 eq p t miss
    | inr (c, hit) ↦ absurd (ground arith)
  ]

pub zero_add : {E : Type 0} (t : List (Option E)) (i : ℕ) → get t (0 + i) ≡ get t i
zero_add t i = let e : 0 + i ≡ i = omega arith in rw e

pub found_at :
    {E : Type 0} (t : List (Option E)) (eq : E → Bool) (b : ℕ)
    → find_from 0 eq t ≡ some b
    → (e : E) × (get t b ≡ some e) × (eq e ≡ true)
found_at t eq b h =
    let (i, at, found) = find_from-some 0 eq t b h in let e : b ≡ i = omega arith in rw e found
