-- ===== src/Map/Spec.antt =====
-- The abstract map of a shard, and what an operation does to it.
use neocache.Prelude.{◌≡◌, ◌≢◌, refl, ◌∙◌, ap, inl, inr, Option, arith, Bool-cases, if◌then◌else◌}
use neocache.Shard.{Item, hash_item, Shard}
use neocache.Shard.Invariant.{IsValid, IsWithin}
use neocache.Shard.Lookup.{lookup}
use neocache.Table.{Key, RawTable}

-- A map with the value at one key replaced.
abbrev pub updated : {K V : Type 0} ⦃key : Key K⦄ → (K → Option V) → K → Option V → K → Option V
updated ⦃key⦄ m k x j = if key.beq j k then x else m j

pub updated_lem :
    {K V : Type 0} ⦃key : Key K⦄ (m f : K → Option V) (k : K) (x : Option V)
    → f k ≡ x
    → ((j : K) → j ≢ k → f j ≡ m j)
    → (j : K) → f j ≡ updated m k x j
updated_lem ⦃key⦄ m f k x self others j = elim (Bool-cases (key.beq j k)) [
  | inl same ↦ rw same (ap f ((key.beq_iff j k).0 same) ∙ self)
  | inr other ↦ rw other (others j (λ p. ground (arith, other, (key.beq_iff j k).1 p)))
]

pub updated_same :
    {K V : Type 0} ⦃key : Key K⦄ (m : K → Option V) (k : K) (x : Option V)
    → m k ≡ x
    → (j : K) → m j ≡ updated m k x j
updated_same m k x self = updated_lem m m k x self (λ j other. refl)

pub updated_self :
    {K V : Type 0} ⦃key : Key K⦄ (m : K → Option V) (k : K) (x : Option V) → updated m k x k ≡ x
updated_self ⦃key⦄ m k x = rw ((key.beq_iff k k).1 refl)

pub updated_ne :
    {K V : Type 0} ⦃key : Key K⦄ (m : K → Option V) (k : K) (x : Option V) (j : K)
    → j ≢ k
    → updated m k x j ≡ m j
updated_ne ⦃key⦄ m k x j other = elim (Bool-cases (key.beq j k)) [
  | inl same ↦ absurd (other ((key.beq_iff j k).0 same))
  | inr apart ↦ rw apart
]

-- Of two writes at a key the second one stays.
pub updated_twice :
    {K V : Type 0} ⦃key : Key K⦄ (m : K → Option V) (k : K) (x y : Option V) (j : K)
    → updated (updated m k x) k y j ≡ updated m k y j
updated_twice ⦃key⦄ m k x y j = elim (Bool-cases (key.beq j k)) [
  | inl same ↦ rw same refl
  | inr other ↦ rw other refl
]

module _ {K V : Type 0} ⦃key : Key K⦄ (raw : RawTable (Item K V) hash_item) where
  -- The shard stays well-formed within its capacity, and its abstract map becomes `m`; `answer`
  -- is what the operation returns.
  pub record Becomes {R : Type 0} (s : Shard raw) (m : K → Option V) (answer : R)
      (r : Shard raw × R) : Type 0 where
    pub valid : IsValid raw r.0
    pub within : IsWithin raw r.0
    pub cap : r.0.shard_cap ≡ s.shard_cap
    pub returns : r.1 ≡ answer
    pub map : (j : K) → lookup raw r.0.map j ≡ m j
