-- ===== src/Cache/History/Ideal.antt =====
-- Runs of calls against an ideal cache, a map that evicts nothing.
use mathlib.Core.Path.{fun_ext}
use neocache.Cache.{Cache, with_capacity_and_shard_amount}
use neocache.Cache.Build.{constructor-IsCacheValid}
use neocache.Cache.History.{
  Call, insert, remove, remove_if, remove_if_mut, get, contains_key, view, alter, alter_all, retain,
  clear, Answer, answer, after, Allows, Follows, run,
}
use neocache.Cache.History.Follow.{run-Follows}
use neocache.Cache.Valid.{value_at}
use neocache.Config.{is_power_of_two, reduced_shard_amount, shard_cap_of}
use neocache.Map.Each.{effect}
use neocache.Map.Spec.{updated}
use neocache.Map.TakeIf.{takes, leaves}
use mathlib.Core.Option
use neocache.Prelude.{
  if◌then◌else◌, ℕ, ◌^◌, ◌<◌, ◌≡◌, refl, ◌∙◌, ap, ◌⊎◌, inl, inr, Bool-cases, true, Option, none,
  some, List, [], ◌∷◌, Returns, arith,
}
use neocache.Shard.{Item, hash_item}
use neocache.Table.{Key, RawTable}

-- A function of the value at a key that makes nothing of no value.
kept :
    {V : Type 0} (g : Option V → Option V) (x y : Option V)
    → g none ≡ none
    → (x ≡ y) ⊎ (x ≡ none)
    → (g x ≡ g y) ⊎ (g x ≡ none)
kept g x y nothing (inl same) = inl (ap g same)
kept g x y nothing (inr gone) = inr (ap g gone ∙ nothing)

module _ {K V : Type 0} ⦃key : Key K⦄ where
  unfoldable pub ideal : (K → Option V) → List (Call K V) → K → Option V
  ideal m [] = m
  ideal m (call ∷ calls) = ideal (after m call) calls

  unfoldable pub ideal_answers : (K → Option V) → List (Call K V) → List (Answer K V)
  ideal_answers m [] = []
  ideal_answers m (call ∷ calls) = answer m call ∷ ideal_answers (after m call) calls

  -- A map that has some of the values of another.
  abbrev IsPart : (K → Option V) → (K → Option V) → Type 0
  IsPart m i = (j : K) → (m j ≡ i j) ⊎ (m j ≡ none)

  IsPart-updated :
      (m i : K → Option V) (k : K) (x y : Option V)
      → IsPart m i
      → (x ≡ y) ⊎ (x ≡ none)
      → IsPart (updated m k x) (updated i k y)
  IsPart-updated m i k x y part same j = elim (Bool-cases (key.beq j k)) [
    | inl here ↦ rw here same
    | inr there ↦ rw there (part j)
  ]

  IsPart-after :
      (m i : K → Option V) (call : Call K V) → IsPart m i → IsPart (after m call) (after i call)
  unfolding after
  IsPart-after m i (insert k v) part = IsPart-updated m i k (some v) (some v) part (inl refl)
  IsPart-after m i (remove k) part = IsPart-updated m i k none none part (inl refl)
  IsPart-after m i (remove_if k f) part =
      IsPart-updated m i k _ _ part
        (kept (λ x. if takes (f k) x then none else x) (m k) (i k) refl (part k))
  IsPart-after m i (remove_if_mut k f) part =
      IsPart-updated m i k _ _ part (kept (leaves (f k)) (m k) (i k) refl (part k))
  IsPart-after m i (get k) part = part
  IsPart-after m i (contains_key k) part = part
  IsPart-after m i (view k f) part = part
  IsPart-after m i (alter k f) part =
      IsPart-updated m i k _ _ part (kept (Option.map (f k)) (m k) (i k) refl (part k))
  IsPart-after m i (alter_all f) part =
      λ j. kept (effect (λ i x. some (f i x)) j) (m j) (i j) refl (part j)
  IsPart-after m i (retain f) part = λ j.
      kept (effect (λ i x. if (f i x).0 then some (f i x).1 else none) j) (m j) (i j) refl (part j)
  IsPart-after m i clear part = λ j. inl refl

  module _ (cap : ℕ) (m i : K → Option V) (call : Call K V) (n : K → Option V)
      (p : Allows cap m call n) where
    Allows-IsPart : IsPart m i → IsPart n (after i call)
    Allows-IsPart part j = elim (p.keeps j) [
      | inr (_, gone, _, _) ↦ inr gone
      | inl same ↦ elim (IsPart-after m i call part j) [
        | inl is ↦ inl (same ∙ is)
        | inr gone ↦ inr (same ∙ gone)
      ]
    ]

    Allows-unbounded : cap ≡ 0 → n ≡ after m call
    Allows-unbounded no_cap = fun_ext (λ j. elim (p.keeps j) [
      | inr (_, _, enabled, _) ↦ absurd (omega (arith, no_cap, enabled))
      | inl same ↦ same
    ])

  module _ (cap : ℕ) where
    Follows-IsPart :
        (m i : K → Option V) (calls : List (Call K V)) (answers : List (Answer K V))
        (n : K → Option V)
        → Follows cap m calls answers n
        → IsPart m i
        → IsPart n (ideal i calls)
    unfolding Follows ideal
    Follows-IsPart m i [] [] n f part = let e : n ≡ m = fun_ext f in rw e part
    Follows-IsPart m i [] (a ∷ rest) n f part = absurd f
    Follows-IsPart m i (call ∷ calls) [] n f part = absurd f
    Follows-IsPart m i (call ∷ calls) (a ∷ rest) n (o, _, p, f) part =
        Follows-IsPart o (after i call) calls rest n f (Allows-IsPart cap m i call o p part)

    Follows-unbounded :
        (m : K → Option V) (calls : List (Call K V)) (answers : List (Answer K V))
        (n : K → Option V)
        → Follows cap m calls answers n
        → cap ≡ 0
        → (answers ≡ ideal_answers m calls) × (n ≡ ideal m calls)
    unfolding Follows ideal ideal_answers
    Follows-unbounded m [] [] n f no_cap = (refl, fun_ext f)
    Follows-unbounded m [] (a ∷ rest) n f no_cap = absurd f
    Follows-unbounded m (call ∷ calls) [] n f no_cap = absurd f
    Follows-unbounded m (call ∷ calls) (a ∷ rest) n (o, is, p, f) no_cap =
        let e : o ≡ after m call = Allows-unbounded cap m m call o p no_cap in
        let (answers, map) = Follows-unbounded o calls rest n f no_cap in
        (rw (is, answers, e) refl, map ∙ rw e refl)

module _ {K V : Type 0} ⦃key : Key K⦄ (raw : RawTable (Item K V) hash_item)
    (cache_capacity shard_amount : ℕ) (power : is_power_of_two shard_amount ≡ true)
    (many : 1 < shard_amount) (few : shard_amount < 2 ^ 64) where
  -- Every sequence of calls on a new cache, of any capacity and of a count of shards that is a power
  -- of two, at least two and below 2 ^ 64, returns. Afterwards each key has the value that it has in
  -- a map on which the same calls are made, or none.
  pub constructed-ideal :
      (calls : List (Call K V))
      → (c : Cache raw) × (with_capacity_and_shard_amount raw cache_capacity shard_amount ≡ some c)
        × Returns (run raw c calls) (λ r.
          (j : K) → (value_at raw r.0 j ≡ ideal (λ k. none) calls j) ⊎ (value_at raw r.0 j ≡ none))
  constructed-ideal calls =
      let (c, built, valid, _, empty) =
        constructor-IsCacheValid raw cache_capacity shard_amount power many few in
      let cap = shard_cap_of cache_capacity (reduced_shard_amount cache_capacity shard_amount) in
      let (r, done, (_, f)) = run-Follows raw cap c calls valid in
      (
        c,
        built,
        (
          r,
          done,
          Follows-IsPart cap (value_at raw c) (λ k. none) calls r.1 (value_at raw r.0) f
              (λ j. inl (empty j)),
        ),
      )

  -- Every sequence of calls on a new cache of capacity zero, which is unbounded, returns. Each call
  -- has the answer that it has on a map, and at the end the cache holds what the map holds.
  pub unbounded-ideal :
      (calls : List (Call K V))
      → cache_capacity ≡ 0
      → (c : Cache raw) × (with_capacity_and_shard_amount raw cache_capacity shard_amount ≡ some c)
        × Returns (run raw c calls) (λ r.
          (r.1 ≡ ideal_answers (λ k. none) calls)
          × ((j : K) → value_at raw r.0 j ≡ ideal (λ k. none) calls j))
  unfolding shard_cap_of
  unbounded-ideal calls none_given =
      let (c, built, valid, _, empty) =
        constructor-IsCacheValid raw cache_capacity shard_amount power many few in
      let cap = shard_cap_of cache_capacity (reduced_shard_amount cache_capacity shard_amount) in
      let no_cap : cap ≡ 0 = rw none_given refl in
      let (r, done, (_, f)) = run-Follows raw cap c calls valid in
      let (answers, map) =
        Follows-unbounded cap (value_at raw c) calls r.1 (value_at raw r.0) f no_cap in
      let start : value_at raw c ≡ (λ k. none) = fun_ext empty in
      (c, built, (r, done, (rw start at answers, λ j. rw map (rw start refl))))
