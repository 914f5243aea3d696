-- ===== src/MapRef/Guard.antt =====
-- The guards of src/mapref/one.rs. A `Ref` or `RefMut` points to the value of a bucket, a
-- `MappedRef` or `MappedRefMut` to a place inside that value.
pub mod Ref
pub mod RefMut
pub mod MappedRef
pub mod MappedRefMut
pub mod Wrote
pub mod Through
pub mod Attempt
use neocache.Prelude.{
  ◌≡◌, ap, ◌∙◌, Option, none, some, Option-cases, inl, inr, Run, ok, fault, dangling, arith,
}

-- A place of type `T` inside a value of type `V`, to which a reference `&T` or `&mut T` made from a
-- `&V` or `&mut V` points. A value may have no such place, as another variant of an enum has none.
pub record Place (V T : Type 0) : Type 0 where
  pub look : V → Option T
  pub put : V → T → V
  pub look-put : (v : V) (t u : T) → look v ≡ some t → look (put v u) ≡ some u

-- Reading through a pointer to a place.
abbrev pub read : {T : Type 0} → Option T → Run T
read none = fault dangling
read (some t) = ok t

module _ {V T U : Type 0} (p : Place V T) (q : Place T U) where
  abbrev pub look_inner : V → Option U
  look_inner v = elim (p.look v) [ none ↦ none | some t ↦ q.look t ]

  abbrev pub put_inner : V → U → V
  put_inner v u = elim (p.look v) [ none ↦ v | some t ↦ p.put v (q.put t u) ]

  pub inner_lem : (v : V) (t u : U) → look_inner v ≡ some t → look_inner (put_inner v u) ≡ some u
  inner_lem v t u h = elim (Option-cases (p.look v)) [
    | inl miss ↦ absurd (ground (arith, h, miss))
    | inr (x, hit) ↦
        let deep : q.look x ≡ some t = ground (arith, h, hit) in
        let put : put_inner v u ≡ p.put v (q.put x u) = ground (arith, hit) in
        let found : look_inner (p.put v (q.put x u)) ≡ some u =
          ground (arith, p.look-put v x (q.put x u) hit, q.look-put x t u deep) in
        ap look_inner put ∙ found
  ]

  -- A place inside a place.
  unfoldable pub inner : Place V U
  inner = record { look = look_inner; put = put_inner; look-put = inner_lem }
