-- ===== src/Shard/Lookup.antt =====
-- What a table shows at a key, as an abstract map, and how writes and removals change it.
pub mod Change
use neocache.Prelude.{
  ◌≤◌, ◌≡◌, ◌≢◌, sym, ◌∙◌, ap, inl, inr, Option, none, some, arith, Option-cases,
}
use neocache.Entry.{CacheEntry}
use neocache.Shard.{Item, hash_item, has_key}
use neocache.Shard.Invariant.{is_key, Shows}
use neocache.Shard.Pop.{absent}
use neocache.Table.{Key, RawTable, weigh}

module _ {K V : Type 0} ⦃key : Key K⦄ (raw : RawTable (Item K V) hash_item) where
  open raw use {
    Table, Bucket, elements, contents, find, write, remove, bucket_eq, contents-write,
    contents-write_ne, contents-remove, contents-remove_ne, remove-elements, find-none, find-some,
  }

  -- The abstract map of a table.
  unfoldable pub lookup : Table → K → Option V
  lookup t k = elim (find t (key.hash_one k) (has_key raw k)) [
    | none ↦ none
    | some b ↦ elim (contents t b) [ none ↦ none | some e ↦ some e.1.value ]
  ]

  -- A write that keeps key and value shows nothing new.
  pub Shows-write :
      (t : Table) (b : Bucket) (e : Item K V)
      → contents t b ≡ some e
      → (f : CacheEntry V) → f.value ≡ e.1.value
      → (k : K) (v : V) → Shows raw (write t b (e.0, f)) k v
      → Shows raw t k v
  Shows-write t b e here f same k v (c, x, at, x-k, x-v) = elim (bucket_eq c b) [
    | yes p ↦
        let e' : some x ≡ some (e.0, f) =
          sym at ∙ ap (contents (write t b (e.0, f))) p ∙ contents-write t b e (e.0, f) here in
        (b, e, here, ground (arith, e'), ground (arith, e'))
    | no p ↦ (c, x, sym (contents-write_ne t b c (e.0, f) p) ∙ at, x-k, x-v)
  ]

  -- Any write to an entry shows nothing new at another key.
  pub Shows-write_ne :
      (t : Table) (b : Bucket) (e : Item K V)
      → contents t b ≡ some e
      → (f : CacheEntry V) (k : K) (v : V) → k ≢ e.0
      → Shows raw (write t b (e.0, f)) k v
      → Shows raw t k v
  Shows-write_ne t b e here f k v other (c, x, at, x-k, x-v) = elim (bucket_eq c b) [
    | yes p ↦
        let e' : some x ≡ some (e.0, f) =
          sym at ∙ ap (contents (write t b (e.0, f))) p ∙ contents-write t b e (e.0, f) here in
        absurd (other (ground (arith, e')))
    | no p ↦ (c, x, sym (contents-write_ne t b c (e.0, f) p) ∙ at, x-k, x-v)
  ]

  pub Shows-remove :
      (t : Table) (b : Bucket) (k : K) (v : V) → Shows raw (remove t b) k v → Shows raw t k v
  Shows-remove t b k v (c, x, at, x-k, x-v) = elim (bucket_eq c b) [
    | yes p ↦
        let e' : some x ≡ none = sym at ∙ ap (contents (remove t b)) p ∙ contents-remove t b in cc
    | no p ↦ (c, x, sym (contents-remove_ne t b c p) ∙ at, x-k, x-v)
  ]

  -- With no key twice, a lookup finds the bucket of the key.
  pub find_here :
      (t : Table) (b : Bucket) (e : Item K V) (k : K)
      → contents t b ≡ some e
      → e.0 ≡ k
      → weigh (is_key k) (elements t) ≤ 1
      → find t (key.hash_one k) (has_key raw k) ≡ some b
  find_here t b e k here same once = elim (Option-cases (find t (key.hash_one k) (has_key raw k))) [
    | inl miss ↦ absurd (
        ground (
          arith,
          absent raw t k (find-none t (key.hash_one k) (has_key raw k) miss),
          remove-elements t b e (is_key k) here,
          (key.beq_iff e.0 k).1 same,
        ))
    | inr (c, hit) ↦ elim (bucket_eq c b) [
      | yes p ↦ hit ∙ ap some p
      | no p ↦
          let (x, at, eq) = find-some t (key.hash_one k) (has_key raw k) c hit in
          absurd (
            ground (
              arith,
              eq,
              remove-elements t b e (is_key k) here,
              remove-elements (remove t b) c x (is_key k) (contents-remove_ne t b c p ∙ at),
              (key.beq_iff e.0 k).1 same,
            ))
    ]
  ]

  pub lookup-Shows :
      (t : Table) (k : K) (v : V)
      → weigh (is_key k) (elements t) ≤ 1
      → Shows raw t k v
      → lookup t k ≡ some v
  unfolding lookup
  lookup-Shows t k v once (b, e, here, same, value) =
      ground (arith, find_here t b e k here same once, here, value)

  pub Shows-lookup : (t : Table) (k : K) (v : V) → lookup t k ≡ some v → Shows raw t k v
  unfolding lookup
  Shows-lookup t k v h = elim (Option-cases (find t (key.hash_one k) (has_key raw k))) [
    | inl miss ↦ absurd (ground (arith, miss))
    | inr (b, hit) ↦
        let (e, at, eq) = find-some t (key.hash_one k) (has_key raw k) b hit in
        (b, e, at, (key.beq_iff e.0 k).0 eq, ground (arith, hit, at))
  ]

  pub lookup-eq-none : (t : Table) (k : K) → weigh (is_key k) (elements t) ≡ 0 → lookup t k ≡ none
  lookup-eq-none t k gone = elim (Option-cases (lookup t k)) [
    | inl miss ↦ miss
    | inr (v, hit) ↦
        let (b, e, here, same, _) = Shows-lookup t k v hit in
        absurd (ground (arith, remove-elements t b e (is_key k) here, (key.beq_iff e.0 k).1 same))
  ]
