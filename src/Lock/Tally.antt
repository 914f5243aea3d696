-- ===== src/Lock/Tally.antt =====
-- Sums of a weight over the threads, and how they change when one thread moves.
use neocache.Lock.{Pc}
use neocache.Lock.System.{get_elem?, set, replicate}
use neocache.Prelude.{
  ℕ, zero, suc, ◌+◌, ◌≤◌, ◌<◌, ◌≡◌, ◌≢◌, refl, ap, some, List, [], ◌∷◌, map, length, arith, ltb,
  ltb→lt, Bool-cases, inl, inr,
}

pub tally : (Pc → ℕ) → List Pc → ℕ
tally f [] = 0
tally f (p ∷ ps) = f p + tally f ps

-- The threads but one.
pub others : (Pc → ℕ) → List Pc → ℕ → ℕ
unfolding tally
others f [] i = 0
others f (p ∷ ps) zero = tally f ps
others f (p ∷ ps) (suc i) = f p + others f ps i

pub tally-split :
    (f : Pc → ℕ) (ps : List Pc) (i : ℕ) (p : Pc)
    → get_elem? ps i ≡ some p
    → tally f ps ≡ f p + others f ps i
unfolding tally others
tally-split f [] i p h = absurd (ground arith)
tally-split f (q ∷ ps) zero p h = ground arith
tally-split f (q ∷ ps) (suc i) p h = omega (arith, tally-split f ps i p h)

pub tally-set :
    (f : Pc → ℕ) (ps : List Pc) (i : ℕ) (p q : Pc)
    → get_elem? ps i ≡ some p
    → tally f (set ps i q) ≡ f q + others f ps i
unfolding tally others
tally-set f [] i p q h = absurd (ground arith)
tally-set f (r ∷ ps) zero p q h = refl
tally-set f (r ∷ ps) (suc i) p q h = omega (arith, tally-set f ps i p q h)

pub tally_mono : (f g : Pc → ℕ) (ps : List Pc) → ((p : Pc) → f p ≤ g p) → tally f ps ≤ tally g ps
unfolding tally
tally_mono f g [] h = omega arith
tally_mono f g (p ∷ ps) h = omega (arith, h p, tally_mono f g ps h)

pub others_mono :
    (f g : Pc → ℕ) (ps : List Pc) (i : ℕ) → ((p : Pc) → f p ≤ g p) → others f ps i ≤ others g ps i
unfolding others
others_mono f g [] i h = omega arith
others_mono f g (p ∷ ps) zero h = tally_mono f g ps h
others_mono f g (p ∷ ps) (suc i) h = omega (arith, h p, others_mono f g ps i h)

pub tally-map :
    (f : Pc → ℕ) (g : Pc → Pc) (ps : List Pc) → tally f (map g ps) ≡ tally (λ p. f (g p)) ps
unfolding tally
tally-map f g [] = refl
tally-map f g (p ∷ ps) = omega (arith, tally-map f g ps)

pub tally-congr : (f g : Pc → ℕ) (ps : List Pc) → ((p : Pc) → f p ≡ g p) → tally f ps ≡ tally g ps
unfolding tally
tally-congr f g [] h = refl
tally-congr f g (p ∷ ps) h = omega (arith, h p, tally-congr f g ps h)

pub tally-one : (ps : List Pc) → tally (λ p. 1) ps ≡ length ps
unfolding tally
tally-one [] = refl
tally-one (p ∷ ps) = omega (arith, tally-one ps)

pub length-set : (ps : List Pc) (i : ℕ) (q : Pc) → length (set ps i q) ≡ length ps
length-set [] i q = refl
length-set (p ∷ ps) zero q = refl
length-set (p ∷ ps) (suc i) q = omega (arith, length-set ps i q)

-- A sum above zero has a thread that it counts.
pub tally-some :
    (f : Pc → ℕ) (ps : List Pc)
    → 0 < tally f ps
    → (i : ℕ) × (p : Pc) × (get_elem? ps i ≡ some p) × (0 < f p)
unfolding tally
tally-some f [] h = absurd (omega arith)
tally-some f (p ∷ ps) h = elim (Bool-cases (ltb 0 (f p))) [
  | inl here ↦ (0, p, refl, ltb→lt 0 (f p) here)
  | inr gone ↦
      let (i, q, at, more) = tally-some f ps (ground (arith, h, gone)) in (suc i, q, at, more)
]

pub tally-zero : (f : Pc → ℕ) (ps : List Pc) → ((p : Pc) → f p ≡ 0) → tally f ps ≡ 0
unfolding tally
tally-zero f [] h = refl
tally-zero f (p ∷ ps) h = omega (arith, h p, tally-zero f ps h)

pub tally-replicate : (n : ℕ) (p : Pc) (f : Pc → ℕ) → f p ≡ 0 → tally f (replicate n p) ≡ 0
unfolding tally
tally-replicate zero p f h = refl
tally-replicate (suc n) p f h = omega (arith, h, tally-replicate n p f h)

-- Another thread counts among the others.
pub others-ge :
    (f : Pc → ℕ) (ps : List Pc) (i j : ℕ) (p q : Pc)
    → get_elem? ps i ≡ some p
    → get_elem? ps j ≡ some q
    → j ≢ i
    → f q ≤ others f ps i
unfolding tally others
others-ge f [] i j p q at-i at-j other = absurd (ground arith)
others-ge f (x ∷ ps) zero zero p q at-i at-j other = absurd (other refl)
others-ge f (x ∷ ps) zero (suc j) p q at-i at-j other = omega (arith, tally-split f ps j q at-j)
others-ge f (x ∷ ps) (suc i) zero p q at-i at-j other = ground (arith, at-j)
others-ge f (x ∷ ps) (suc i) (suc j) p q at-i at-j other =
    omega (arith, others-ge f ps i j p q at-i at-j (λ e. other (ap suc e)))

pub tally-sum : (f g : Pc → ℕ) (ps : List Pc) → tally (λ p. f p + g p) ps ≡ tally f ps + tally g ps
unfolding tally
tally-sum f g [] = omega arith
tally-sum f g (p ∷ ps) = omega (arith, tally-sum f g ps)

pub tally-none :
    (f : Pc → ℕ) (ps : List Pc)
    → ((i : ℕ) (p : Pc) → get_elem? ps i ≡ some p → f p ≡ 0)
    → tally f ps ≡ 0
unfolding tally
tally-none f [] h = refl
tally-none f (p ∷ ps) h = omega (arith, h 0 p refl, tally-none f ps (λ i q at. h (suc i) q at))
