-- ===== src/Iter/Exact/Last.antt =====
-- The last value that the pairs of the shards hold for a key.
use neocache.Cache.{shard_at}
use neocache.Cache.Valid.{IsGood}
use neocache.Cache.Whole.Fresh.{last_of}
use neocache.Iter.Every.{pair_of, pairs_of}
use neocache.Map.Spec.{updated, updated_self, updated_ne}
use neocache.Prelude.{
  ℕ, zero, suc, ◌≡◌, ◌≢◌, refl, sym, ◌∙◌, ap, ◌⊎◌, inl, inr, Option, none, some, List, [], ◌∷◌,
  ◌++◌, map, Bool-cases, Option-cases, All, arith, ok,
}
use neocache.Shard.{Item, hash_item, Shard}
use neocache.Shard.Invariant.{is_key, IsValid}
use neocache.Shard.Lookup.{lookup, lookup-Shows, lookup-eq-none}
use neocache.Table.{Key, RawTable, weigh, walk}

-- The value of the first map that has one.
abbrev pub over : {V : Type 0} → Option V → Option V → Option V
over x none = x
over x (some v) = some v

pub over-none : {V : Type 0} (x : Option V) → over none x ≡ x
over-none none = refl
over-none (some v) = refl

module _ {K V : Type 0} ⦃key : Key K⦄ (raw : RawTable (Item K V) hash_item) where
  open raw use {Table, Bucket, elements, contents, iter, elements-iter, remove-elements}

  last_of-walk :
      (at : Bucket → Option (Item K V)) (bs : List Bucket) (m : K → Option V) (k : K)
      → ((weigh (is_key k) (walk at bs) ≡ 0) × (last_of m (map (pair_of raw) (walk at bs)) k ≡ m k))
        ⊎ ((b : Bucket) × (e : Item K V) × (at b ≡ some e)
            × (e.0 ≡ k)
            × (last_of m (map (pair_of raw) (walk at bs)) k ≡ some e.1.value))
  unfolding weigh walk
  last_of-walk at [] m k = inl (refl, refl)
  last_of-walk at (b ∷ bs) m k = elim (Option-cases (at b)) [
    | inl free ↦
        let opens : walk at (b ∷ bs) ≡ walk at bs = ground (arith, free) in
        rw opens (last_of-walk at bs m k)
    | inr (e, here) ↦
        let opens : walk at (b ∷ bs) ≡ e ∷ walk at bs = ground (arith, here) in
        elim (last_of-walk at bs (updated m e.0 (some e.1.value)) k) [
          | inr later ↦ rw opens (inr later)
          | inl (no_later, last) ↦ elim (Bool-cases (key.beq e.0 k)) [
            | inl same ↦
                let is : e.0 ≡ k = (key.beq_iff e.0 k).0 same in
                let at_last : updated m e.0 (some e.1.value) k ≡ some e.1.value =
                  rw (sym is) (updated_self m e.0 (some e.1.value)) in
                rw opens (inr (b, e, here, is, last ∙ at_last))
            | inr other ↦
                let apart : k ≢ e.0 = λ p. ground (arith, other, (key.beq_iff e.0 k).1 (sym p)) in
                rw opens (
                  inl (
                    ground (arith, other, no_later),
                    last ∙ updated_ne m e.0 (some e.1.value) k apart,
                  ))
          ]
        ]
  ]

  -- The pairs of a shard, after those that led to `m`.
  last_of_shard :
      (s : Shard raw) (m : K → Option V) (k : K)
      → IsValid raw s
      → last_of m (map (pair_of raw) (elements s.map)) k ≡ over (m k) (lookup raw s.map k)
  last_of_shard s m k v =
      let walked = elements-iter s.map in
      elim (last_of-walk (contents s.map) (iter s.map) m k) [
        | inl (nothing, last) ↦
            let absent = lookup-eq-none raw s.map k (rw walked nothing) in rw (walked, absent) last
        | inr (b, e, here, is, last) ↦
            let found =
              lookup-Shows raw s.map k e.1.value (v.placed.unique k) (b, e, here, is, refl) in
            rw (walked, found) last
      ]

  last_of_append :
      (m : K → Option V) (ps qs : List (K × V)) → last_of m (ps ++ qs) ≡ last_of (last_of m ps) qs
  last_of_append m [] qs = refl
  last_of_append m ((k, x) ∷ ps) qs = last_of_append (updated m k (some x)) ps qs

  module _ (k : K) where
    -- The shards from which the key is away.
    abbrev pub Away : List (Shard raw) → Type 0
    Away ss = (i : ℕ) (s : Shard raw) → shard_at ss i ≡ ok s → lookup raw s.map k ≡ none

    last_of-Away :
        (cap : ℕ) (ss : List (Shard raw)) (m : K → Option V)
        → All (IsGood raw cap) ss
        → Away ss
        → last_of m (pairs_of raw ss) k ≡ m k
    unfolding shard_at
    last_of-Away cap [] m good away = refl
    last_of-Away cap (s ∷ ss) m ((valid, _, _), good) away =
        let first = last_of_shard s m k valid in
        let rest =
          last_of-Away cap ss (last_of m (map (pair_of raw) (elements s.map))) good
            (λ i u there. away (suc i) u there) in
        rw (last_of_append m (map (pair_of raw) (elements s.map)) (pairs_of raw ss))
          (rest ∙ first ∙ ap (over (m k)) (away 0 s refl))

    pub last_of_home :
        (cap : ℕ) (ss : List (Shard raw)) (h : ℕ) (m : K → Option V) (t : Shard raw)
        → All (IsGood raw cap) ss
        → shard_at ss h ≡ ok t
        → ((i : ℕ) (s : Shard raw) → shard_at ss i ≡ ok s → i ≢ h → lookup raw s.map k ≡ none)
        → last_of m (pairs_of raw ss) k ≡ over (m k) (lookup raw t.map k)
    unfolding shard_at
    last_of_home cap [] h m t good here home = absurd (ground arith)
    last_of_home cap (s ∷ ss) zero m t ((valid, _, _), good) here home =
        let is : s ≡ t = ground (arith, here) in
        let rest =
          last_of-Away cap ss (last_of m (map (pair_of raw) (elements s.map))) good
            (λ i u there. home (suc i) u there (omega arith)) in
        rw (last_of_append m (map (pair_of raw) (elements s.map)) (pairs_of raw ss))
          (rest ∙ last_of_shard s m k valid ∙ ap (λ x. over (m k) (lookup raw x.map k)) is)
    last_of_home cap (s ∷ ss) (suc h) m t ((valid, _, _), good) here home =
        let n = last_of m (map (pair_of raw) (elements s.map)) in
        let first : n k ≡ m k =
          last_of_shard s m k valid ∙ ap (over (m k)) (home 0 s refl (omega arith)) in
        let rest =
          last_of_home cap ss h n t good here
            (λ i u there other. home (suc i) u there (omega (arith, other))) in
        rw (last_of_append m (map (pair_of raw) (elements s.map)) (pairs_of raw ss))
          (rest ∙ ap (λ x. over x (lookup raw t.map k)) first)
