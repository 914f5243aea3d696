-- ===== src/Shard/Lookup/Change.antt =====
-- The abstract map after a write or a removal, at the key itself and at every other.
use neocache.Entry.{CacheEntry}
use neocache.Prelude.{◌≤◌, ◌≡◌, ◌≢◌, refl, sym, ◌∙◌, ap, inl, inr, none, some, arith, Option-cases}
use neocache.Shard.{Item, hash_item, has_key}
use neocache.Shard.Invariant.{is_key, Shows}
use neocache.Shard.Lookup.{
  lookup, Shows-write_ne, Shows-remove, lookup-Shows, Shows-lookup, lookup-eq-none,
}
use neocache.Shard.Pop.{absent}
use neocache.Table.{Key, RawTable, weigh}

module _ {K V : Type 0} ⦃key : Key K⦄ (raw : RawTable (Item K V) hash_item) where
  open raw use {
    Table, Bucket, elements, contents, find, write, remove, bucket_eq, contents-write,
    contents-write_ne, contents-remove_ne, remove-elements, write-elements, find-none, find-some,
  }

  -- Two tables without double keys that show the same at a key.
  pub lookup_congr :
      (t u : Table) (k : K)
      → weigh (is_key k) (elements t) ≤ 1
      → weigh (is_key k) (elements u) ≤ 1
      → ((x : V) → Shows raw u k x → Shows raw t k x)
      → ((x : V) → Shows raw t k x → Shows raw u k x)
      → lookup raw u k ≡ lookup raw t k
  lookup_congr t u k once-t once-u back forth = elim (Option-cases (lookup raw u k)) [
    | inr (x, at) ↦ at ∙ sym (lookup-Shows raw t k x once-t (back x (Shows-lookup raw u k x at)))
    | inl gone ↦ elim (Option-cases (lookup raw t k)) [
      | inl gone' ↦ gone ∙ sym gone'
      | inr (x, at) ↦ absurd (
          ground (arith, gone, lookup-Shows raw u k x once-u (forth x (Shows-lookup raw t k x at))))
    ]
  ]

  -- What `find` says about the abstract map.
  pub found_lem :
      (t : Table) (k : K) (b : Bucket)
      → find t (key.hash_one k) (has_key raw k) ≡ some b
      → (e : Item K V) × (contents t b ≡ some e) × (e.0 ≡ k) × (lookup raw t k ≡ some e.1.value)
  unfolding lookup
  found_lem t k b hit =
      let (e, here, eq) = find-some t (key.hash_one k) (has_key raw k) b hit in
      (e, here, (key.beq_iff e.0 k).0 eq, ground (arith, hit, here))

  pub missed_lem :
      (t : Table) (k : K) → find t (key.hash_one k) (has_key raw k) ≡ none → lookup raw t k ≡ none
  missed_lem t k miss =
      lookup-eq-none raw t k (absent raw t k (find-none t (key.hash_one k) (has_key raw k) miss))

  -- A lookup that fails tells that no entry has the key.
  pub weigh-none : (t : Table) (k : K) → lookup raw t k ≡ none → weigh (is_key k) (elements t) ≡ 0
  weigh-none t k h = elim (Option-cases (find t (key.hash_one k) (has_key raw k))) [
    | inl miss ↦ absent raw t k (find-none t (key.hash_one k) (has_key raw k) miss)
    | inr (b, hit) ↦
        let (e, here, same, value) = found_lem t k b hit in absurd (ground (arith, h, value))
  ]

  module _ (t : Table) (b : Bucket) (e : Item K V) (here : contents t b ≡ some e) where
    -- The bucket of another key is another bucket.
    apart : (j : K) (x : V) → j ≢ e.0 → (s : Shows raw t j x) → s.0 ≢ b
    apart j x other (c, y, at, y-j, y-x) p =
        let e' : some y ≡ some e = sym at ∙ ap (contents t) p ∙ here in other (ground (arith, e'))

    module _ (unique : (k : K) → weigh (is_key k) (elements t) ≤ 1) where
      pub lookup-remove_ne : (j : K) → j ≢ e.0 → lookup raw (remove t b) j ≡ lookup raw t j
      lookup-remove_ne j other =
          lookup_congr t (remove t b) j (unique j)
            (omega (arith, unique j, remove-elements t b e (is_key j) here))
            (λ x s. Shows-remove raw t b j x s)
            (λ x s. (s.0, s.1, contents-remove_ne t b s.0 (apart j x other s) ∙ s.2, s.3, s.4))

      pub lookup-remove_self : lookup raw (remove t b) e.0 ≡ none
      lookup-remove_self = lookup-eq-none raw (remove t b) e.0 (
          ground (
            arith,
            unique e.0,
            remove-elements t b e (is_key e.0) here,
            (key.beq_iff e.0 e.0).1 refl,
          ))

      module _ (f : CacheEntry V) where
        write_unique : (j : K) → weigh (is_key j) (elements (write t b (e.0, f))) ≤ 1
        write_unique j = omega (arith, unique j, write-elements t b e (e.0, f) (is_key j) here refl)

        pub lookup-write_self : lookup raw (write t b (e.0, f)) e.0 ≡ some f.value
        lookup-write_self =
            lookup-Shows raw (write t b (e.0, f)) e.0 f.value (write_unique e.0)
              (b, (e.0, f), contents-write t b e (e.0, f) here, refl, refl)

        pub lookup-write_ne : (j : K) → j ≢ e.0 → lookup raw (write t b (e.0, f)) j ≡ lookup raw t j
        lookup-write_ne j other =
            lookup_congr t (write t b (e.0, f)) j (unique j) (write_unique j)
              (λ x s. Shows-write_ne raw t b e here f j x other s)
              (λ x s.
                (s.0, s.1, contents-write_ne t b s.0 (e.0, f) (apart j x other s) ∙ s.2, s.3, s.4))
