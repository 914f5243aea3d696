-- ===== src/MapRef/Guard/Through.antt =====
-- Writing through a mapped guard that `get_mut` gave.
use mathlib.Core.Option
use neocache.Map.{get, get_mut}
use neocache.Map.Read.{Looked, get-Looked, get_mut-eq-get}
use neocache.Map.Spec.{Becomes, updated, updated_same}
use neocache.MapRef.Guard.{Place, inner}
use neocache.MapRef.Guard.MappedRefMut
use neocache.MapRef.Guard.RefMut
use neocache.MapRef.Guard.Wrote.{
  with_value, Wrote, Looked-Wrote, ref_map_lem, mapped_value_lem, mapped_set_lem, mapped_map_lem,
}
use neocache.Prelude.{◌≡◌, ◌∙◌, Option, none, some, Run, ok, ◌>>=◌, Returns, arith}
use neocache.Shard.{Item, hash_item, Shard}
use neocache.Shard.Invariant.{IsValid, IsWithin}
use neocache.Shard.Lookup.{lookup}
use neocache.Table.{Key, RawTable}

module _ {K V T U : Type 0} ⦃key : Key K⦄ (raw : RawTable (Item K V) hash_item) where
  open raw use {Bucket, contents, write, contents-write}

  module _ (f : V → V × Place V T) (g : T → T × Place T U) (u : U) where
    -- `guard.map(f)` and `.map(g)`, an assignment through the result, and a read.
    pub assign : Shard raw → Bucket → Run (Shard raw × U)
    unfolding RefMut.map MappedRefMut.map MappedRefMut.set_value MappedRefMut.value
    assign s b = do
      (s₁, m) ← RefMut.map raw s b f
      (s₂, n) ← MappedRefMut.map raw s₁ m g
      s₃ ← MappedRefMut.set_value raw s₂ n u
      x ← MappedRefMut.value raw s₃ n
      ok (s₃, x)

    -- The same on the guard of `get_mut`, if there is one.
    pub assign_at : Shard raw → K → Run (Shard raw × Option U)
    unfolding get_mut assign
    assign_at s k = do
      (s', r) ← get_mut raw s k
      elim r [ none ↦ ok (s', none) | some b ↦ do x ← assign s' b; ok (x.0, some x.1) ]

    -- The results of the closures point inside what the closures have left.
    abbrev pub Reaches : V → Type 0
    Reaches x =
        (t : T) × ((f x).1.look (f x).0 ≡ some t) × (w : U) × ((g t).1.look (g t).0 ≡ some w)

    -- The value after both closures and the assignment: what `f` leaves, in it at its place what
    -- `g` leaves of what it finds there, and in that at its place `u`.
    abbrev pub written : V → V
    written x = elim ((f x).1.look (f x).0) [
      | none ↦ (f x).0
      | some t ↦ (f x).1.put ((f x).1.put (f x).0 (g t).0) ((g t).1.put (g t).0 u)
    ]

    assign_lem :
        (s t : Shard raw) (k : K) (b : Bucket) (e : Item K V)
        → Wrote raw s k b e t
        → Reaches e.1.value
        → (t' : Shard raw) × (assign t b ≡ ok (t', u))
          × Wrote raw s k b (with_value raw e (written e.1.value)) t'
    unfolding assign inner
    assign_lem s t k b e w (y, at_y, z, at_z) =
        let x = (f e.1.value).0 in
        let p : Place V T = (f e.1.value).1 in
        let y' = (g y).0 in
        let q : Place T U = (g y).1 in
        let x' = p.put x y' in
        let at_y' : p.look x' ≡ some y' = p.look-put x y y' at_y in
        let reached : (inner p q).look x' ≡ some z = ground (arith, at_y', at_z) in
        let put : (inner p q).put x' u ≡ written e.1.value = ground (arith, at_y, at_y') in
        let found : (inner p q).look ((inner p q).put x' u) ≡ some u =
          (inner p q).look-put x' z u reached in
        let (t₁, run₁, w₁) = ref_map_lem raw s k b e t w f in
        let e₁ = with_value raw e x in
        let (t₂, run₂, w₂) = mapped_map_lem raw s k b e₁ t₁ w₁ p y at_y g in
        let e₂ = with_value raw e x' in
        let (t₃, run₃, w₃) = mapped_set_lem raw s k b e₂ t₂ w₂ (inner p q) z reached u in
        let e₃ = with_value raw e ((inner p q).put x' u) in
        let read = mapped_value_lem raw s k b e₃ t₃ w₃ (inner p q) u found in
        (t₃, ground (arith, run₁, run₂, run₃, read), rw (← put) w₃)

    module _ (s : Shard raw) (v : IsValid raw s) (within : IsWithin raw s) (k : K)
        (reaches : (x : V) → lookup raw s.map k ≡ some x → Reaches x) where
      abbrev Assigned : Shard raw × Option U → Type 0
      Assigned =
          Becomes raw s (updated (lookup raw s.map) k (Option.map written (lookup raw s.map k)))
            (Option.map (λ x. u) (lookup raw s.map k))

      assign_of :
          (r : Shard raw × Option Bucket)
          → get raw s k ≡ ok r
          → Looked raw s k r
          → Returns (assign_at s k) Assigned
      unfolding assign_at
      assign_of (s', none) run l = (
        (s', none),
        ground (arith, run, get_mut-eq-get raw s v within k),
        record {
          valid = l.valid;
          within = l.within;
          cap = l.cap;
          returns = rw l.points;
          map = λ j. l.map j ∙ updated_same (lookup raw s.map) k _ (rw l.points) j;
        },
      )
      assign_of (s', some b) run l =
          let (e, value, w) = Looked-Wrote raw s s' k b l in
          let (t, assigned, w') = assign_lem s s' k b e w (reaches e.1.value value) in
          (
            (t, some u),
            ground (arith, run, get_mut-eq-get raw s v within k, assigned),
            record {
              valid = w'.valid;
              within = w'.within;
              cap = w'.cap;
              returns = ground (arith, value);
              map = λ j. w'.map j ∙ ground (arith, value);
            },
          )

      -- On a well-formed shard within its capacity, an assignment through the guard of `get_mut`,
      -- mapped by two closures, which may write to what they get, and whose results point inside
      -- what they leave, returns. If the key is stored, its value becomes what the first closure
      -- leaves, with what the second one leaves at the first place and what was assigned at the
      -- second, inside it; the guard reads what was assigned, and no other stored value changes. If
      -- the key is not stored nothing changes.
      pub assign-Becomes : Returns (assign_at s k) Assigned
      assign-Becomes = let (r, run, l) = get-Looked raw s v within k in assign_of r run l
