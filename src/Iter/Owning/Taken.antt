-- ===== src/Iter/Owning/Taken.antt =====
-- The owning iterator gives every entry once, and leaves the cache without entries.
use neocache.Cache.{Cache, shard_at, put_shard, len_of, len}
use neocache.Cache.At.{
  shard_at-lt, shard_at_bound, length-put_shard, shard_at-put_self, shard_at-put_ne,
}
use neocache.Iter.{uncons}
use neocache.Iter.Every.{
  drop, drop-shard_at, drop-length, pair_of, pairs_of, held, held-uncons-none, held-uncons-some,
}
use neocache.Iter.Owning.{Owning, new, next_loop, next, collect}
use neocache.Map
use neocache.Prelude.{
  ℕ, zero, suc, ◌+◌, ◌≤◌, ◌<◌, ◌≡◌, refl, sym, ◌∙◌, ap, inl, inr, Option, none, some, List, [], ◌∷◌,
  ◌++◌, length, eqb, Bool-cases, Option-cases, arith, ok, Returns,
}
use neocache.Shard.{Item, hash_item, Shard}
use neocache.Table.{Key, RawTable}
use native.Mathlib.Decide.{ℕ_discrete}

drop-put_shard :
    {A : Type 0} (xs : List A) (i : ℕ) (x : A) → drop (suc i) (put_shard xs i x) ≡ drop (suc i) xs
unfolding put_shard
drop-put_shard [] i x = refl
drop-put_shard (y ∷ xs) zero x = refl
drop-put_shard (y ∷ xs) (suc i) x = drop-put_shard xs i x

module _ {K V : Type 0} ⦃key : Key K⦄ (raw : RawTable (Item K V) hash_item) where
  open raw use {elements, with_capacity, elements-with_capacity}

  -- What an iterator has still to give.
  abbrev pub left : Owning raw → List (K × V)
  left it = held raw it.current ++ pairs_of raw (drop it.shard_i it.map.shards)

  -- The shards behind the iterator have no entries.
  record IsTaken (it : Owning raw) : Type 0 where
    within : it.shard_i ≤ length it.map.shards
    behind :
        (i : ℕ) (s : Shard raw)
        → i < it.shard_i
        → shard_at it.map.shards i ≡ ok s
        → elements s.map ≡ []

  abbrev Gives : Owning raw → Owning raw × Option (K × V) → Type 0
  Gives it (it', none) = (left it ≡ []) × (it'.shard_i ≡ length it'.map.shards)
  Gives it (it', some p) = left it ≡ p ∷ left it'

  Gives-congr :
      (it jt : Owning raw) (r : Owning raw × Option (K × V))
      → left it ≡ left jt
      → Gives jt r
      → Gives it r
  Gives-congr it jt (it', none) same (p, q) = (same ∙ p, q)
  Gives-congr it jt (it', some x) same p = same ∙ p

  -- The iterator after it has taken a table.
  abbrev opened : Owning raw → Shard raw → Owning raw
  opened it s = record {
    map = record it.map {
      shards = put_shard it.map.shards it.shard_i (record s { map = with_capacity 0 });
    };
    shard_i = it.shard_i + 1;
    current = some (elements s.map);
  }

  opened-IsTaken :
      (it : Owning raw) (s : Shard raw)
      → it.shard_i < length it.map.shards
      → IsTaken it
      → IsTaken (opened it s)
  opened-IsTaken it s low t =
      let gone : Shard raw = record s { map = with_capacity 0 } in
      record {
        within = omega (arith, low, length-put_shard it.map.shards it.shard_i gone);
        behind = λ i u before here. elim (ℕ_discrete i it.shard_i) [
          | yes same ↦
              let at : ok gone ≡ ok u =
                sym (shard_at-put_self it.map.shards it.shard_i gone low) ∙ (rw same at here) in
              let is : gone ≡ u = ground (arith, at) in
              ap (λ x. elements x.map) (sym is) ∙ elements-with_capacity 0
          | no other ↦
              t.behind i u (omega (arith, before, other))
                (sym (shard_at-put_ne it.map.shards it.shard_i i gone other) ∙ here)
        ];
      }

  left-opened :
      (it : Owning raw) (s : Shard raw)
      → uncons it.current ≡ none
      → shard_at it.map.shards it.shard_i ≡ ok s
      → left it ≡ left (opened it s)
  left-opened it s empty here =
      let one : it.shard_i + 1 ≡ suc it.shard_i = omega arith in
      rw
        (
          held-uncons-none raw it.current empty,
          drop-shard_at it.map.shards it.shard_i s here,
          one,
          drop-put_shard it.map.shards it.shard_i (record s { map = with_capacity 0 }),
        )
        refl

  next_loop_lem :
      (fuel : ℕ) (it : Owning raw)
      → IsTaken it
      → length it.map.shards < fuel + it.shard_i
      → Returns (next_loop raw fuel it) (λ r. Gives it r × IsTaken r.0)
  unfolding next_loop
  next_loop_lem zero it t enough = absurd (omega (arith, t.within, enough))
  next_loop_lem (suc fuel) it t enough = elim (Option-cases (uncons it.current)) [
    | inr ((e, es), here) ↦ (
      (record it { current = some es }, some (pair_of raw e)),
      ground (arith, here),
      (
        rw (held-uncons-some raw it.current e es here) refl,
        record { within = t.within; behind = t.behind },
      ),
    )
    | inl empty ↦ elim (Bool-cases (eqb it.shard_i (length it.map.shards))) [
      | inl last ↦
          let at : it.shard_i ≡ length it.map.shards = ground (arith, last) in
          let none_left : left it ≡ [] =
            rw (held-uncons-none raw it.current empty, at, drop-length it.map.shards) refl in
          ((it, none), ground (arith, empty, last), ((none_left, at), t))
      | inr more ↦
          let low : it.shard_i < length it.map.shards = ground (arith, more, t.within) in
          let (s, here) = shard_at-lt it.map.shards it.shard_i low in
          let jt = opened it s in
          let count =
            length-put_shard it.map.shards it.shard_i (record s { map = with_capacity 0 }) in
          let (r, run, (p, t')) =
            next_loop_lem fuel jt (opened-IsTaken it s low t) (omega (arith, enough, count)) in
          (
            r,
            ground (arith, empty, more, here, run),
            (Gives-congr it jt r (left-opened it s empty here) p, t'),
          )
    ]
  ]

  next_lem : (it : Owning raw) → IsTaken it → Returns (next raw it) (λ r. Gives it r × IsTaken r.0)
  unfolding next
  next_lem it t = next_loop_lem (suc (length it.map.shards)) it t (omega (arith, t.within))

  -- After the last call every shard is behind the iterator.
  abbrev Emptied : Owning raw → Type 0
  Emptied it = IsTaken it × (it.shard_i ≡ length it.map.shards)

  -- What is claimed of a loop over the iterator.
  abbrev Collected : ℕ → Owning raw → Type 0
  Collected fuel it = Returns (collect raw fuel it) (λ r. (r.1 ≡ left it) × Emptied r.0)

  collect_from :
      (fuel : ℕ) (it : Owning raw) (r : Owning raw × Option (K × V))
      → next raw it ≡ ok r
      → Gives it r
      → IsTaken r.0
      → (length (left r.0) < length (left it) → Collected fuel r.0)
      → Collected (suc fuel) it
  unfolding collect
  collect_from fuel it (it', none) run (p, last) t' later =
      ((it', []), ground (arith, run), (sym p, (t', last)))
  collect_from fuel it (it', some x) run p t' later =
      let (r, rest, (q, e)) = later (omega (arith, ap length p)) in
      ((r.0, x ∷ r.1), ground (arith, run, rest), (rw q (sym p), e))

  collect_lem :
      (fuel : ℕ) (it : Owning raw) → IsTaken it → length (left it) < fuel → Collected fuel it
  collect_lem zero it t enough = absurd (omega (arith, enough))
  collect_lem (suc fuel) it t enough =
      let (r, run, (p, t')) = next_lem it t in
      collect_from fuel it r run p t'
        (λ less. collect_lem fuel r.0 t' (omega (arith, enough, less)))

  len_of-empty :
      (ss : List (Shard raw))
      → ((i : ℕ) (s : Shard raw) → shard_at ss i ≡ ok s → elements s.map ≡ [])
      → len_of raw ss ≡ 0
  unfolding len_of Map.len shard_at
  len_of-empty [] h = refl
  len_of-empty (s ∷ ss) h =
      omega (arith, ap length (h 0 s refl), len_of-empty ss (λ i u here. h (suc i) u here))

  -- A loop over the owning iterator of a cache ends, on fuel of one more than there are entries. It
  -- gives every entry of every shard once, shard by shard, and leaves the cache that it owns
  -- without entries.
  pub collect-all :
      (c : Cache raw) (fuel : ℕ)
      → length (pairs_of raw c.shards) < fuel
      → Returns
          (collect raw fuel (new raw c))
          (λ r. (r.1 ≡ pairs_of raw c.shards) × (len raw r.0.map ≡ 0))
  unfolding len
  collect-all c fuel enough =
      let (r, run, (p, (t, last))) =
        collect_lem fuel (new raw c)
          (record {
            within = omega arith;
            behind = λ i s before here. absurd (omega (arith, before));
          })
          enough in
      (
        r,
        run,
        (
          p,
          len_of-empty r.0.map.shards (λ i s here.
              t.behind i s (omega (arith, last, shard_at_bound r.0.map.shards i s here)) here),
        ),
      )
