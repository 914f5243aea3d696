-- ===== src/Iter/Mutable/Loop.antt =====
-- A loop over the mutable iterator works on every bucket of every shard once.
use neocache.Cache.{Cache, shard_at, put_shard}
use neocache.Cache.Refine.{CacheBecomes}
use neocache.Cache.Valid.{IsCacheValid, value_at}
use neocache.Cache.Whole
use neocache.Cache.Whole.{each_shard}
use neocache.Cache.Whole.Effects.{cache_alter_all-Becomes}
use neocache.Iter.Mutable.{IterMut, new, next_loop, next, for_each, alter_all}
use neocache.Map
use neocache.Map.{map_in_place}
use neocache.Map.Each.{effect}
use neocache.Prelude.{
  bind-ok, ℕ, zero, suc, ◌+◌, ◌≤◌, ◌<◌, ◌≡◌, refl, ◌∙◌, ap, Option, none, some, List, [], ◌∷◌,
  false, length, eqb, arith, ok, fault, ◌>>=◌, Run, Returns,
}
use neocache.Shard.{Item, hash_item, Shard}
use neocache.Table.{Key, RawTable}

-- The shards behind the iterator, the last one first, and those from there on.
abbrev rev_onto : {A : Type 0} → List A → List A → List A
rev_onto [] ys = ys
rev_onto (x ∷ pre) ys = rev_onto pre (x ∷ ys)

length-rev_onto : {A : Type 0} (pre ys : List A) → length (rev_onto pre ys) ≡ length pre + length ys
length-rev_onto [] ys = omega arith
length-rev_onto (x ∷ pre) ys = omega (arith, length-rev_onto pre (x ∷ ys))

shard_at-rev_onto :
    {A : Type 0} (pre : List A) (y : A) (ys : List A) (k i : ℕ)
    → i ≡ length pre + k
    → shard_at (rev_onto pre (y ∷ ys)) i ≡ shard_at (y ∷ ys) k
unfolding shard_at
shard_at-rev_onto [] y ys k i e = let same : i ≡ k = omega (arith, e) in rw same refl
shard_at-rev_onto (x ∷ pre) y ys k i e =
    shard_at-rev_onto pre x (y ∷ ys) (suc k) i (omega (arith, e))

put_shard-rev_onto :
    {A : Type 0} (pre ys : List A) (k i : ℕ) (z : A)
    → i ≡ length pre + k
    → put_shard (rev_onto pre ys) i z ≡ rev_onto pre (put_shard ys k z)
unfolding put_shard
put_shard-rev_onto [] ys k i z e = let same : i ≡ k = omega (arith, e) in rw same refl
put_shard-rev_onto (x ∷ pre) ys k i z e =
    put_shard-rev_onto pre (x ∷ ys) (suc k) i z (omega (arith, e))

module _ {K V : Type 0} ⦃key : Key K⦄ (raw : RawTable (Item K V) hash_item) where
  open raw use {Bucket, iter}

  -- How many buckets the shards have.
  abbrev pub buckets : List (Shard raw) → ℕ
  buckets [] = 0
  buckets (s ∷ ss) = length (iter s.map) + buckets ss

  module _ (body : Shard raw → Bucket → Run (Shard raw)) where
    -- The work of the loop on one answer of `next`.
    abbrev work : ℕ → Cache raw → IterMut Bucket × Option (ℕ × Bucket) → Run (Cache raw)
    work fuel c (it, none) = ok c
    work fuel c (it, some (i, b)) = shard_at c.shards i >>= λ s.
        body s b >>= λ s'. for_each raw body fuel (record c { shards = put_shard c.shards i s' }) it

    for_each-work :
        (fuel : ℕ) (c : Cache raw) (it : IterMut Bucket)
        → for_each raw body (suc fuel) c it ≡ (next raw c it >>= work fuel c)
    unfolding for_each
    for_each-work fuel c it = elim (next raw c it) [
      | fault why ↦ refl
      | ok (it', none) ↦ refl
      | ok (it', some (i, b)) ↦ refl
    ]

    -- A cache with the shards before, at and behind the one that the iterator walks through.
    module _ (c : Cache raw) where
      abbrev at_shards : List (Shard raw) → List (Shard raw) → Cache raw
      at_shards pre ss = record c { shards = rev_onto pre ss }

      abbrev walking : List (Shard raw) → List Bucket → IterMut Bucket
      walking pre bs = record { shard_i = suc (length pre); current = some (length pre, bs) }

      -- One bucket: the body works on it, and the loop goes on.
      work_one :
          (pre : List (Shard raw)) (s s' : Shard raw) (post : List (Shard raw)) (b : Bucket)
          (bs : List Bucket) (loops fuel : ℕ)
          → body s b ≡ ok s'
          → (next_loop raw (suc loops) (at_shards pre (s ∷ post)) (walking pre (b ∷ bs))
              >>= work fuel (at_shards pre (s ∷ post)))
            ≡ for_each raw body fuel (at_shards pre (s' ∷ post)) (walking pre bs)
      unfolding next_loop shard_at put_shard
      work_one pre s s' post b bs loops fuel run =
          let i : length pre ≡ length pre + 0 = omega arith in
          rw
            (
              shard_at-rev_onto pre s post 0 (length pre) i,
              run,
              put_shard-rev_onto pre (s ∷ post) 0 (length pre) s' i,
            )
            refl

      -- No bucket and no shard left: the loop ends.
      work_end :
          (pre : List (Shard raw)) (s : Shard raw) (loops fuel : ℕ)
          → (next_loop raw (suc loops) (at_shards pre (s ∷ [])) (walking pre [])
              >>= work fuel (at_shards pre (s ∷ [])))
            ≡ ok (at_shards pre (s ∷ []))
      unfolding next_loop
      work_end pre s loops fuel = let n = length-rev_onto pre (s ∷ []) in ground (arith, n)

      -- No bucket left: the iterator opens the next shard.
      work_open :
          (pre : List (Shard raw)) (s t : Shard raw) (post : List (Shard raw)) (loops : ℕ)
          → next_loop raw (suc loops) (at_shards pre (s ∷ t ∷ post)) (walking pre [])
            ≡ next_loop raw loops (at_shards (s ∷ pre) (t ∷ post)) (walking (s ∷ pre) (iter t.map))
      unfolding next_loop shard_at
      work_open pre s t post loops =
          let n = length-rev_onto pre (s ∷ t ∷ post) in
          let i : suc (length pre) ≡ length pre + 1 = omega arith in
          let one : suc (length pre) + 1 ≡ suc (suc (length pre)) = omega arith in
          let more : eqb (suc (length pre)) (length (rev_onto pre (s ∷ t ∷ post))) ≡ false =
            ground (arith, n) in
          rw (more, shard_at-rev_onto pre s (t ∷ post) 1 (suc (length pre)) i, one) refl

      abbrev shard_loop : Shard raw → Run (Shard raw)
      shard_loop s = Map.for_each raw body (iter s.map) s

      Loops :
          ℕ
          → ℕ
          → List (Shard raw)
          → Shard raw
          → List Bucket
          → List (Shard raw)
          → Shard raw
          → List (Shard raw)
          → Type 0
      Loops loops fuel pre s bs post s' ts =
          (next_loop raw loops (at_shards pre (s ∷ post)) (walking pre bs)
            >>= work fuel (at_shards pre (s ∷ post)))
          ≡ ok (at_shards pre (s' ∷ ts))

      loop_lem :
          (post : List (Shard raw)) (bs : List Bucket) (pre : List (Shard raw)) (s s' : Shard raw)
          (ts : List (Shard raw)) (loops fuel : ℕ)
          → Map.for_each raw body bs s ≡ ok s'
          → each_shard raw shard_loop post ≡ ok ts
          → length bs + buckets post ≤ fuel
          → length post < loops
          → Loops loops fuel pre s bs post s' ts
      unfolding Loops each_shard Map.for_each next
      loop_lem post bs pre s s' ts zero fuel here rest enough many = absurd (omega (arith, many))
      loop_lem post (b ∷ bs) pre s s' ts loops zero here rest enough many =
          absurd (omega (arith, enough))
      loop_lem post (b ∷ bs) pre s s' ts (suc loops) (suc fuel) here rest enough many =
          let (s₁, run, then_) = bind-ok (body s b) (Map.for_each raw body bs) s' here in
          let n = length-rev_onto pre (s₁ ∷ post) in
          work_one pre s s₁ post b bs loops (suc fuel) run
          ∙ for_each-work fuel (at_shards pre (s₁ ∷ post)) (walking pre bs)
          ∙ loop_lem post bs pre s₁ s' ts (suc (length (rev_onto pre (s₁ ∷ post)))) fuel then_ rest
              (omega (arith, enough)) (omega (arith, n))
      loop_lem [] [] pre s s' ts (suc loops) fuel here rest enough many =
          let same : s ≡ s' = ground (arith, here) in
          let none_left : [] ≡ ts = ground (arith, rest) in
          rw (← same, ← none_left) (work_end pre s loops fuel)
      loop_lem (t ∷ post) [] pre s s' ts (suc loops) fuel here rest enough many =
          let (t', run, more) =
            bind-ok (shard_loop t) (λ t'. each_shard raw shard_loop post >>= λ us. ok (t' ∷ us)) ts
              rest in
          let (us, run', last) =
            bind-ok (each_shard raw shard_loop post) (λ us. ok (t' ∷ us)) ts more in
          let same : s ≡ s' = ground (arith, here) in
          let all : t' ∷ us ≡ ts = ground (arith, last) in
          rw (← same, ← all, work_open pre s t post loops)
            (loop_lem post (iter t.map) (s ∷ pre) t t' us loops fuel run run'
              (omega (arith, enough)) (omega (arith, many)))

      open_first :
          (s : Shard raw) (ss : List (Shard raw)) (loops : ℕ)
          → next_loop raw (suc loops) (at_shards [] (s ∷ ss)) (new raw)
            ≡ next_loop raw loops (at_shards [] (s ∷ ss)) (walking [] (iter s.map))
      unfolding next_loop shard_at
      open_first s ss loops =
          let more : eqb 0 (suc (length ss)) ≡ false = ground arith in
          let one : 0 + 1 ≡ suc (length {A = Shard raw} []) = omega arith in rw (more, one) refl

      opening :
          (ss ts : List (Shard raw)) (fuel : ℕ)
          → each_shard raw shard_loop ss ≡ ok ts
          → buckets ss ≤ fuel
          → (next raw (at_shards [] ss) (new raw) >>= work fuel (at_shards [] ss))
            ≡ ok (at_shards [] ts)
      unfolding Loops each_shard next next_loop
      opening [] ts fuel rest enough = ground (arith, rest)
      opening (s ∷ ss) ts fuel rest enough =
          let (s', run, more) =
            bind-ok (shard_loop s) (λ s'. each_shard raw shard_loop ss >>= λ us. ok (s' ∷ us)) ts
              rest in
          let (us, run', last) =
            bind-ok (each_shard raw shard_loop ss) (λ us. ok (s' ∷ us)) ts more in
          let all : s' ∷ us ≡ ts = ground (arith, last) in
          rw (← all) (
            ap (λ r. r >>= work fuel (at_shards [] (s ∷ ss))) (open_first s ss (suc (length ss)))
            ∙ loop_lem ss (iter s.map) [] s s' us (suc (length ss)) fuel run run'
                (omega (arith, enough)) (omega arith))

      -- What a loop over the mutable iterator does is what the same loop over each shard does.
      for_each-each :
          (ts : List (Shard raw)) (fuel : ℕ)
          → each_shard raw shard_loop c.shards ≡ ok ts
          → buckets c.shards < fuel
          → for_each raw body fuel c (new raw) ≡ ok (record c { shards = ts })
      for_each-each ts zero rest enough = absurd (omega (arith, enough))
      for_each-each ts (suc fuel) rest enough =
          for_each-work fuel c (new raw) ∙ opening c.shards ts fuel rest (omega (arith, enough))

  -- The loop of `_alter_all` over the mutable iterator ends, on fuel of one more than there are
  -- entries, and leaves a well-formed cache well-formed. Every stored key gets the closure's result
  -- on it and its value, once, and no key is added or taken out.
  pub iter_mut-Becomes :
      (cap : ℕ) (c : Cache raw) (f : K → V → V) (fuel : ℕ)
      → IsCacheValid raw cap c
      → buckets c.shards < fuel
      → Returns (alter_all raw fuel c f) (λ d.
        CacheBecomes raw cap
          (λ j. effect (λ i x. some (f i x)) j (value_at raw c j))
          tt
          (d, tt {0}))
  unfolding alter_all Whole.alter_all Map.alter_all
  iter_mut-Becomes cap c f fuel v enough =
      let (d, run, p) = cache_alter_all-Becomes raw cap c f v in
      let body : Shard raw → Bucket → Run (Shard raw) = λ s b. map_in_place raw s f b in
      let (ts, each, last) =
        bind-ok (each_shard raw (shard_loop body c) c.shards) (λ ts. ok (record c { shards = ts }))
          d run in
      (d, for_each-each body c ts fuel each enough ∙ last, p)
