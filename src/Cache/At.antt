-- ===== src/Cache/At.antt =====
-- Reading and replacing a shard by its index.
use neocache.Cache.{shard_at, put_shard, replicate}
use neocache.Prelude.{ℕ, zero, suc, ◌<◌, ◌≡◌, ◌≢◌, refl, ap, List, [], ◌∷◌, length, All, ok, arith}

module _ {A : Type 0} where
  pub shard_at-lt : (xs : List A) (i : ℕ) → i < length xs → (x : A) × (shard_at xs i ≡ ok x)
  unfolding shard_at
  shard_at-lt [] i low = absurd (omega (arith, low))
  shard_at-lt (x ∷ xs) zero low = (x, refl)
  shard_at-lt (x ∷ xs) (suc i) low = shard_at-lt xs i (omega (arith, low))

  pub shard_at-All :
      (P : A → Type 0) (xs : List A) (i : ℕ) (x : A) → All P xs → shard_at xs i ≡ ok x → P x
  unfolding shard_at
  shard_at-All P [] i x all h = absurd (ground arith)
  shard_at-All P (y ∷ xs) zero x (p, all) h = let same : y ≡ x = ground arith in rw same at p
  shard_at-All P (y ∷ xs) (suc i) x (p, all) h = shard_at-All P xs i x all h

  pub put_shard-All :
      (P : A → Type 0) (xs : List A) (i : ℕ) (y : A) → All P xs → P y → All P (put_shard xs i y)
  unfolding put_shard
  put_shard-All P [] i y all p = tt
  put_shard-All P (x ∷ xs) zero y (q, all) p = (p, all)
  put_shard-All P (x ∷ xs) (suc i) y (q, all) p = (q, put_shard-All P xs i y all p)

  pub length-put_shard : (xs : List A) (i : ℕ) (y : A) → length (put_shard xs i y) ≡ length xs
  unfolding put_shard
  length-put_shard [] i y = refl
  length-put_shard (x ∷ xs) zero y = refl
  length-put_shard (x ∷ xs) (suc i) y = ap suc (length-put_shard xs i y)

  pub shard_at-put_self :
      (xs : List A) (i : ℕ) (y : A) → i < length xs → shard_at (put_shard xs i y) i ≡ ok y
  unfolding shard_at put_shard
  shard_at-put_self [] i y low = absurd (omega (arith, low))
  shard_at-put_self (x ∷ xs) zero y low = refl
  shard_at-put_self (x ∷ xs) (suc i) y low = shard_at-put_self xs i y (omega (arith, low))

  pub shard_at-put_ne :
      (xs : List A) (i j : ℕ) (y : A) → j ≢ i → shard_at (put_shard xs i y) j ≡ shard_at xs j
  unfolding shard_at put_shard
  shard_at-put_ne [] i j y other = refl
  shard_at-put_ne (x ∷ xs) zero zero y other = absurd (other refl)
  shard_at-put_ne (x ∷ xs) zero (suc j) y other = refl
  shard_at-put_ne (x ∷ xs) (suc i) zero y other = refl
  shard_at-put_ne (x ∷ xs) (suc i) (suc j) y other =
      shard_at-put_ne xs i j y (λ p. other (ap suc p))

  pub shard_at_bound : (xs : List A) (i : ℕ) (x : A) → shard_at xs i ≡ ok x → i < length xs
  unfolding shard_at
  shard_at_bound [] i x h = absurd (ground (arith, h))
  shard_at_bound (y ∷ xs) zero x h = omega arith
  shard_at_bound (y ∷ xs) (suc i) x h = omega (arith, shard_at_bound xs i x h)

  pub length-replicate : (n : ℕ) (x : A) → length (replicate n x) ≡ n
  length-replicate zero x = refl
  length-replicate (suc n) x = ap suc (length-replicate n x)

  pub replicate-All : (P : A → Type 0) (n : ℕ) (x : A) → P x → All P (replicate n x)
  replicate-All P zero x p = tt
  replicate-All P (suc n) x p = (p, replicate-All P n x p)

  pub shard_at-replicate : (n i : ℕ) (x : A) → i < n → shard_at (replicate n x) i ≡ ok x
  unfolding shard_at
  shard_at-replicate zero i x low = absurd (omega (arith, low))
  shard_at-replicate (suc n) zero x low = refl
  shard_at-replicate (suc n) (suc i) x low = shard_at-replicate n i x (omega (arith, low))
