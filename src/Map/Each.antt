-- ===== src/Map/Each.antt =====
-- Loops over all buckets of a shard whose body changes only the entry that it is at.
use neocache.Map.{for_each}
use neocache.Map.Spec.{Becomes, updated}
use neocache.Prelude.{
  ℕ, ◌+◌, ◌≤◌, ◌≡◌, ◌≢◌, refl, ◌∙◌, inl, inr, Option, none, some, List, [], ◌∷◌, All, IsDistinct,
  leb, arith, if◌then◌else◌, Bool-cases, false, ap, sym, not-leb, Run, Returns,
}
use neocache.Shard.{Item, hash_item, Shard}
use neocache.Shard.Invariant.{is_key, IsValid, IsWithin}
use neocache.Shard.Lookup.{lookup, lookup-Shows, lookup-eq-none}
use neocache.Table.{Key, RawTable, weigh, walk}

-- A function of the stored value at a key.
abbrev pub effect : {K V : Type 0} → (K → V → Option V) → K → Option V → Option V
effect g j none = none
effect g j (some x) = g j x

module _ {K V : Type 0} ⦃key : Key K⦄ (raw : RawTable (Item K V) hash_item) where
  open raw use {Table, Bucket, elements, contents, iter, elements-iter, iter-full, iter-distinct}

  pub walk_congr :
      (at at' : Bucket → Option (Item K V)) (b : Bucket) (bs : List Bucket)
      → All (λ c. c ≢ b) bs
      → ((c : Bucket) → c ≢ b → at' c ≡ at c)
      → walk at' bs ≡ walk at bs
  unfolding walk
  walk_congr at at' b [] _ same = refl
  walk_congr at at' b (c ∷ bs) (other, rest) same =
      ground (arith, same c other, walk_congr at at' b bs rest same)

  pub full_congr :
      (at at' : Bucket → Option (Item K V)) (b : Bucket) (bs : List Bucket)
      → All (λ c. c ≢ b) bs
      → ((c : Bucket) → c ≢ b → at' c ≡ at c)
      → All (λ c. (e : Item K V) × (at c ≡ some e)) bs
      → All (λ c. (e : Item K V) × (at' c ≡ some e)) bs
  full_congr at at' b [] _ same full = tt
  full_congr at at' b (c ∷ bs) (other, rest) same (full, fulls) =
      ((full.0, same c other ∙ full.1), full_congr at at' b bs rest same fulls)

  -- How many of the buckets hold the key.
  abbrev visited : Table → List Bucket → K → ℕ
  visited t bs j = weigh (is_key j) (walk (contents t) bs)

  visited-cons :
      (t : Table) (b : Bucket) (bs : List Bucket) (e : Item K V) (j : K)
      → contents t b ≡ some e
      → visited t (b ∷ bs) j ≡ is_key j e + visited t bs j
  unfolding walk weigh
  visited-cons t b bs e j here = ground (arith, here)

  -- The body of the loop replaces the value of the entry at `b` by `g`, or drops the entry.
  abbrev pub Body : (Shard raw → Bucket → Run (Shard raw)) → (K → V → Option V) → Type 0
  Body body g =
      (t : Shard raw) (b : Bucket) (e : Item K V)
      → IsValid raw t
      → IsWithin raw t
      → contents t.map b ≡ some e
      → Returns (body t b) (λ u.
        Becomes raw t (updated (lookup raw t.map) e.0 (g e.0 e.1.value)) tt (u, tt {0})
        × ((c : Bucket) → c ≢ b → contents u.map c ≡ contents t.map c))

  -- A loop that has still to visit `bs`.
  record Walking (t : Shard raw) (bs : List Bucket) : Type 0 where
    valid : IsValid raw t
    within : IsWithin raw t
    full : All (λ b. (e : Item K V) × (contents t.map b ≡ some e)) bs
    distinct : IsDistinct bs
    once : (j : K) → visited t.map bs j ≤ 1

  abbrev after : (K → V → Option V) → Shard raw → List Bucket → K → Option V
  after g t bs j =
      if leb 1 (visited t.map bs j) then effect g j (lookup raw t.map j) else lookup raw t.map j

  -- A step moves its bucket from the entries to visit to those that were.
  step_lem :
      (g : K → V → Option V) (t t' : Shard raw) (b : Bucket) (bs : List Bucket) (e : Item K V)
      (j : K)
      → contents t.map b ≡ some e
      → walk (contents t'.map) bs ≡ walk (contents t.map) bs
      → IsValid raw t
      → visited t.map (b ∷ bs) j ≤ 1
      → lookup raw t'.map j ≡ updated (lookup raw t.map) e.0 (g e.0 e.1.value) j
      → after g t' bs j ≡ after g t (b ∷ bs) j
  step_lem g t t' b bs e j here same v once changed =
      let now : visited t'.map bs j ≡ visited t.map bs j = ap (weigh (is_key j)) same in
      let cons = visited-cons t.map b bs e j here in
      elim (Bool-cases (key.beq e.0 j)) [
        | inl hit ↦
            let p = (key.beq_iff e.0 j).0 hit in
            let old =
              lookup-Shows raw t.map j e.1.value (v.placed.unique j) (b, e, here, p, refl) in
            ground (arith, now, cons, hit, once, changed, old, p, (key.beq_iff j e.0).1 (sym p))
        | inr miss ↦
            let q : key.beq j e.0 ≡ false = elim (Bool-cases (key.beq j e.0)) [
              | inl eq ↦
                  absurd
                    (ground (arith, miss, (key.beq_iff e.0 j).1 (sym ((key.beq_iff j e.0).0 eq))))
              | inr neq ↦ neq
            ] in
            ground (arith, now, cons, miss, q, changed)
      ]

  all_lem :
      (g : K → V → Option V) (s : Shard raw) (j : K)
      → visited s.map (iter s.map) j ≡ weigh (is_key j) (elements s.map)
      → after g s (iter s.map) j ≡ effect g j (lookup raw s.map j)
  all_lem g s j all = elim (Bool-cases (leb 1 (visited s.map (iter s.map) j))) [
    | inl stored ↦ rw stored
    | inr gone ↦
        let no_value =
          lookup-eq-none raw s.map j
            (omega (arith, all, not-leb 1 (visited s.map (iter s.map) j) gone)) in
        rw (gone, no_value)
  ]

  module _ (body : Shard raw → Bucket → Run (Shard raw)) (g : K → V → Option V)
      (works : Body body g) where
    for_each_lem :
        (bs : List Bucket) (t : Shard raw)
        → Walking t bs
        → Returns (for_each raw body bs t) (λ u. Becomes raw t (after g t bs) tt (u, tt {0}))
    unfolding for_each walk weigh
    for_each_lem [] t w = (
      t,
      refl,
      record { valid = w.valid; within = w.within; cap = refl; returns = refl; map = λ j. refl },
    )
    for_each_lem (b ∷ bs) t w =
        let (e, here) = w.full.0 in
        let (t', step, (p, kept)) = works t b e w.valid w.within here in
        let same = walk_congr (contents t.map) (contents t'.map) b bs w.distinct.0 kept in
        let next : Walking t' bs = record {
          valid = p.valid;
          within = p.within;
          full = full_congr (contents t.map) (contents t'.map) b bs w.distinct.0 kept w.full.1;
          distinct = w.distinct.1;
          once = λ j. rw same (omega (arith, w.once j, visited-cons t.map b bs e j here));
        } in
        let (u, rest, q) = for_each_lem bs t' next in
        (
          u,
          ground (arith, step, rest),
          record {
            valid = q.valid;
            within = q.within;
            cap = q.cap ∙ p.cap;
            returns = refl;
            map = λ j. q.map j ∙ step_lem g t t' b bs e j here same w.valid (w.once j) (p.map j);
          },
        )

    -- From the buckets of `iter` every stored value is replaced, once.
    pub for_each-iter :
        (s : Shard raw)
        → IsValid raw s
        → IsWithin raw s
        → Returns
            (for_each raw body (iter s.map) s)
            (λ u. Becomes raw s (λ j. effect g j (lookup raw s.map j)) tt (u, tt {0}))
    for_each-iter s v within =
        let all : (j : K) → visited s.map (iter s.map) j ≡ weigh (is_key j) (elements s.map) =
          λ j. rw (elements-iter s.map) in
        let (u, run, p) = for_each_lem (iter s.map) s (record {
          valid = v;
          within = within;
          full = iter-full s.map;
          distinct = iter-distinct s.map;
          once = λ j. omega (arith, v.placed.unique j, all j);
        }) in
        (
          u,
          run,
          record {
            valid = p.valid;
            within = p.within;
            cap = p.cap;
            returns = refl;
            map = λ j. p.map j ∙ all_lem g s j (all j);
          },
        )
