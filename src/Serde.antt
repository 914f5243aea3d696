-- ===== src/Serde.antt =====
-- `Serialize` and `Deserialize` of src/ser.rs. The serializer and the `MapAccess` of a deserializer
-- are parameters: what their methods do is theirs, and each method may fail with its own error.
pub mod Write
pub mod Order
pub mod Read
use neocache.Cache.{Cache, insert, len}
use neocache.Cache.Whole.{with_hasher}
use neocache.Iter.{Iter, new, next}
use neocache.Prelude.{
  ℕ, zero, suc, ◌⊎◌, inl, inr, Option, none, some, List, [], ◌∷◌, Run, ok, fault, no_fuel, panic,
  ◌>>=◌,
}
use neocache.Shard.{Item, hash_item}
use neocache.Table.{Key, RawTable}

-- `Serializer` with its `SerializeMap`.
pub record Serializer (K V : Type 0) : Type 1 where
  pub State : Type 0
  pub Error : Type 0
  pub Ok : Type 0
  pub serialize_map : ℕ → Error ⊎ State
  pub serialize_entry : State → K → V → Error ⊎ State
  pub end : State → Error ⊎ Ok

-- `MapAccess`: the next entry, or none after the last.
pub record MapAccess (K V : Type 0) : Type 1 where
  pub State : Type 0
  pub Error : Type 0
  pub next_entry : State → Error ⊎ (State × Option (K × V))

-- The `?` operator: an error ends the code.
abbrev pub attempt : {E A B : Type 0} → E ⊎ A → (A → Run (E ⊎ B)) → Run (E ⊎ B)
attempt (inl e) next = ok (inl e)
attempt (inr x) next = next x

module _ {K V : Type 0} ⦃key : Key K⦄ (raw : RawTable (Item K V) hash_item) where
  module _ (serializer : Serializer K V) where
    open serializer use {State, Error, Ok, serialize_map, serialize_entry, end}

    -- `for r in self`, on fuel.
    unfoldable pub serialize_loop : ℕ → Cache raw → Iter (Item K V) → State → Run (Error ⊎ Ok)
    unfolding next
    serialize_loop zero c it map = fault no_fuel
    serialize_loop (suc fuel) c it map = do
      (it', r) ← next raw c it
      elim r [
        | none ↦ ok (end map)
        | some (k, v) ↦ attempt (serialize_entry map k v) (λ map'. serialize_loop fuel c it' map')
      ]

    unfoldable pub serialize : ℕ → Cache raw → Run (Error ⊎ Ok)
    unfolding serialize_loop len
    serialize fuel c =
        attempt (serialize_map (len raw c)) (λ map. serialize_loop fuel c (new raw) map)

  module _ (access : MapAccess K V) where
    open access use {State, Error, next_entry}

    -- `while let Some((k, v)) = access.next_entry()?`, on fuel.
    unfoldable pub visit_loop : ℕ → Cache raw → State → Run (Error ⊎ Cache raw)
    unfolding insert
    visit_loop zero c st = fault no_fuel
    visit_loop (suc fuel) c st = attempt (next_entry st) (λ (st', r). elim r [
      | none ↦ ok (inr c)
      | some (k, v) ↦ do (c', _) ← insert raw c k v; visit_loop fuel c' st'
    ])

    unfoldable pub visit_map : ℕ → ℕ → State → Run (Error ⊎ Cache raw)
    unfolding with_hasher visit_loop
    visit_map parallelism fuel st = elim (with_hasher raw parallelism) [
      | none ↦ fault panic
      | some c ↦ visit_loop fuel c st
    ]
