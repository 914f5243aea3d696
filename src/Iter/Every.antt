-- ===== src/Iter/Every.antt =====
-- An iterator gives every entry of every shard once.
use neocache.Cache.{Cache, shard_at}
use neocache.Iter.{Iter, uncons, next_loop, next}
use neocache.Prelude.{
  ℕ, zero, suc, ◌+◌, ◌≤◌, ◌<◌, ◌≡◌, refl, ◌∙◌, inl, inr, Option, none, some, List, [], ◌∷◌, ◌++◌,
  map, length, eqb, Bool-cases, Option-cases, arith, ok, Returns,
}
use neocache.Cache.At.{shard_at-lt}
use neocache.Shard.{Item, hash_item, Shard}
use neocache.Table.{Key, RawTable}

abbrev pub drop : {A : Type 0} → ℕ → List A → List A
drop zero xs = xs
drop (suc n) [] = []
drop (suc n) (x ∷ xs) = drop n xs

pub drop-shard_at :
    {A : Type 0} (xs : List A) (i : ℕ) (x : A)
    → shard_at xs i ≡ ok x
    → drop i xs ≡ x ∷ drop (suc i) xs
unfolding shard_at
drop-shard_at [] i x h = absurd (ground arith)
drop-shard_at (y ∷ xs) zero x h = ground arith
drop-shard_at (y ∷ xs) (suc i) x h = drop-shard_at xs i x h

pub drop-length : {A : Type 0} (xs : List A) → drop (length xs) xs ≡ []
drop-length [] = refl
drop-length (x ∷ xs) = drop-length xs

module _ {K V : Type 0} ⦃key : Key K⦄ (raw : RawTable (Item K V) hash_item) where
  open raw use {elements}

  abbrev pub pair_of : Item K V → K × V
  pair_of e = (e.0, e.1.value)

  abbrev pub pairs_of : List (Shard raw) → List (K × V)
  pairs_of [] = []
  pairs_of (s ∷ ss) = map pair_of (elements s.map) ++ pairs_of ss

  abbrev pub held : Option (List (Item K V)) → List (K × V)
  held none = []
  held (some es) = map pair_of es

  -- What an iterator has still to give.
  abbrev pub remaining : Cache raw → Iter (Item K V) → List (K × V)
  remaining c it = held it.current ++ pairs_of (drop it.shard_i c.shards)

  -- What a call of `next` answers is the first of what remains, and takes it away.
  abbrev pub IsNext : Cache raw → Iter (Item K V) → Iter (Item K V) × Option (K × V) → Type 0
  IsNext c it (it', none) = remaining c it ≡ []
  IsNext c it (it', some p) = remaining c it ≡ p ∷ remaining c it'

  pub held-uncons-none : (o : Option (List (Item K V))) → uncons o ≡ none → held o ≡ []
  held-uncons-none none h = refl
  held-uncons-none (some []) h = refl
  held-uncons-none (some (e ∷ es)) h = absurd (ground arith)

  pub held-uncons-some :
      (o : Option (List (Item K V))) (e : Item K V) (es : List (Item K V))
      → uncons o ≡ some (e, es)
      → held o ≡ pair_of e ∷ map pair_of es
  held-uncons-some none e es h = absurd (ground arith)
  held-uncons-some (some []) e es h = absurd (ground arith)
  held-uncons-some (some (x ∷ xs)) e es h = ground arith

  IsNext-congr :
      (c : Cache raw) (it jt : Iter (Item K V)) (r : Iter (Item K V) × Option (K × V))
      → remaining c it ≡ remaining c jt
      → IsNext c jt r
      → IsNext c it r
  IsNext-congr c it jt (it', none) same p = same ∙ p
  IsNext-congr c it jt (it', some q) same p = same ∙ p

  next_loop_lem :
      (fuel : ℕ) (c : Cache raw) (it : Iter (Item K V))
      → it.shard_i ≤ length c.shards
      → length c.shards < fuel + it.shard_i
      → Returns (next_loop raw fuel c it) (λ r. IsNext c it r × (r.0.shard_i ≤ length c.shards))
  unfolding next_loop
  next_loop_lem zero c it within enough = absurd (omega (arith, within, enough))
  next_loop_lem (suc fuel) c it within enough = elim (Option-cases (uncons it.current)) [
    | inr ((e, es), here) ↦ (
      (record it { current = some es }, some (pair_of e)),
      ground (arith, here),
      (rw (held-uncons-some it.current e es here) refl, within),
    )
    | inl empty ↦ elim (Bool-cases (eqb it.shard_i (length c.shards))) [
      | inl last ↦
          let at : it.shard_i ≡ length c.shards = ground (arith, last) in
          (
            (it, none),
            ground (arith, empty, last),
            (rw (held-uncons-none it.current empty, at, drop-length c.shards) refl, within),
          )
      | inr more ↦
          let low : it.shard_i < length c.shards = ground (arith, more, within) in
          let (s, here) = shard_at-lt c.shards it.shard_i low in
          let jt : Iter (Item K V) = record {
            shard_i = it.shard_i + 1;
            current = some (elements s.map);
          } in
          let (r, run, (p, within')) =
            next_loop_lem fuel c jt (omega (arith, low)) (omega (arith, enough)) in
          let one : it.shard_i + 1 ≡ suc it.shard_i = omega arith in
          let same : remaining c it ≡ remaining c jt =
            rw (held-uncons-none it.current empty, drop-shard_at c.shards it.shard_i s here, one)
              refl in
          (r, ground (arith, empty, more, here, run), (IsNext-congr c it jt r same p, within'))
    ]
  ]

  -- A call of `next` on an iterator within the shards of its cache returns. It answers with the
  -- first of the pairs that the iterator has still to give, of its shard and of all later ones in
  -- order, and leaves the rest to give; it answers with none exactly when nothing is left.
  pub next-IsNext :
      (c : Cache raw) (it : Iter (Item K V))
      → it.shard_i ≤ length c.shards
      → Returns (next raw c it) (λ r. IsNext c it r × (r.0.shard_i ≤ length c.shards))
  unfolding next
  next-IsNext c it within =
      next_loop_lem (suc (length c.shards)) c it within (omega (arith, within))
