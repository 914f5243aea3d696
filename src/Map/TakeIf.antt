-- ===== src/Map/TakeIf.antt =====
-- `_remove_if` and `_remove_if_mut` against the abstract map.
use mathlib.Core.Option
use neocache.Map.{remove_if, remove_if_mut}
use neocache.Map.Spec.{Becomes, updated, updated_same}
use neocache.Map.Take.{remove_found_lem}
use neocache.Map.Write.{write-Becomes}
use neocache.Prelude.{
  refl, ◌∙◌, inl, inr, Bool, false, Option, none, some, arith, Option-cases, Bool-cases, Returns,
  if◌then◌else◌,
}
use neocache.Shard.{Item, hash_item, Shard, has_key}
use neocache.Shard.Evict.{low_freq}
use neocache.Shard.Invariant.{IsValid, IsWithin}
use neocache.Shard.Lookup.{lookup}
use neocache.Shard.Lookup.Change.{found_lem, missed_lem}
use neocache.Table.{Key, RawTable}

-- Whether a predicate takes the stored value.
abbrev pub takes : {V : Type 0} → (V → Bool) → Option V → Bool
takes f none = false
takes f (some x) = f x

-- What the predicate of `remove_if_mut` leaves at the key, and what it takes.
abbrev pub leaves : {V : Type 0} → (V → Bool × V) → Option V → Option V
leaves f none = none
leaves f (some x) = if (f x).0 then none else some (f x).1

abbrev pub taken : {K V : Type 0} → K → (V → Bool × V) → Option V → Option (K × V)
taken k f none = none
taken k f (some x) = if (f x).0 then some (k, (f x).1) else none

module _ {K V : Type 0} ⦃key : Key K⦄ (raw : RawTable (Item K V) hash_item) where
  open raw use {Bucket, contents, find, write, contents-write}

  module _ (s : Shard raw) (v : IsValid raw s) (within : IsWithin raw s) (k : K) where
    abbrev m : K → Option V
    m = lookup raw s.map

    -- On a well-formed shard within its capacity `remove_if` returns. It takes the key out exactly
    -- when it is stored and the predicate says so, and then answers with the key and its value,
    -- else with none; the shard stays well-formed within its capacity.
    pub remove_if-Becomes :
        (f : K → V → Bool)
        → Returns (remove_if raw s k f) (
            Becomes raw s
              (if takes (f k) (m k) then updated m k none else m)
              (if takes (f k) (m k) then Option.map (λ x. (k, x)) (m k) else none))
    unfolding remove_if
    remove_if-Becomes f = elim (Option-cases (find s.map (key.hash_one k) (has_key raw k))) [
      | inl miss ↦
          let no_value = missed_lem raw s.map k miss in
          (
            (s, none),
            ground (arith, miss),
            record {
              valid = v;
              within = within;
              cap = refl;
              returns = rw no_value;
              map = λ j. rw no_value;
            },
          )
      | inr (b, hit) ↦
          let (e, here, same, value) = found_lem raw s.map k b hit in
          elim (Bool-cases (f k e.1.value)) [
            | inl yields ↦
                let (r, run, p) = remove_found_lem raw s v within k b e here same in
                (
                  r,
                  ground (arith, hit, here, same, yields, run),
                  record {
                    valid = p.valid;
                    within = p.within;
                    cap = p.cap;
                    returns = rw (value, yields) p.returns;
                    map = λ j. rw (value, yields) (p.map j);
                  },
                )
            | inr stays ↦ (
              (s, none),
              ground (arith, hit, here, same, stays),
              record {
                valid = v;
                within = within;
                cap = refl;
                returns = rw (value, stays);
                map = λ j. rw (value, stays);
              },
            )
          ]
    ]

    -- On a well-formed shard within its capacity `remove_if_mut` returns. The predicate writes the
    -- value first: a refused entry keeps what was written, a removed one is answered with it, and
    -- any other key is as before; the shard stays well-formed within its capacity.
    pub remove_if_mut-Becomes :
        (f : K → V → Bool × V)
        → Returns
            (remove_if_mut raw s k f)
            (Becomes raw s (updated m k (leaves (f k) (m k))) (taken k (f k) (m k)))
    unfolding remove_if_mut
    remove_if_mut-Becomes f = elim (Option-cases (find s.map (key.hash_one k) (has_key raw k))) [
      | inl miss ↦
          let no_value = missed_lem raw s.map k miss in
          (
            (s, none),
            ground (arith, miss),
            record {
              valid = v;
              within = within;
              cap = refl;
              returns = rw no_value;
              map = updated_same m k (leaves (f k) (m k)) (rw no_value);
            },
          )
      | inr (b, hit) ↦
          let (e, here, same, value) = found_lem raw s.map k b hit in
          let y = (f e.0 e.1.value).1 in
          let g = record e.1 { value = y } in
          let s' : Shard raw = record s { map = write s.map b (e.0, g) } in
          let here' = contents-write s.map b e (e.0, g) here in
          let low = low_freq raw s.map b e here v.placed.calm in
          elim (Bool-cases (f e.0 e.1.value).0) [
            | inl yields ↦
                let w = write-Becomes raw s v within k b e here same g refl low tt in
                let (r, run, p) =
                  remove_found_lem raw s' w.valid w.within k b (e.0, g) here' same in
                (
                  r,
                  ground (arith, hit, here, yields, run),
                  record {
                    valid = p.valid;
                    within = p.within;
                    cap = p.cap;
                    returns = p.returns ∙ ground (arith, value, same, yields);
                    map = λ j. p.map j ∙ ground (arith, value, same, yields, w.map j);
                  },
                )
            | inr stays ↦
                let w =
                  write-Becomes raw {R = Option (K × V)} s v within k b e here same g refl low
                    none in
                (
                  (s', none),
                  ground (arith, hit, here, stays),
                  record {
                    valid = w.valid;
                    within = w.within;
                    cap = w.cap;
                    returns = ground (arith, value, same, stays);
                    map = λ j. w.map j ∙ ground (arith, value, same, stays);
                  },
                )
          ]
    ]
