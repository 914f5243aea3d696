-- ===== src/Map/Read.antt =====
-- The lookups against the abstract map: they change nothing that a user sees, and count a use.
pub mod Alter
use mathlib.Core.Option
use neocache.Entry.{CacheEntry, max_freq, bump_freq}
use neocache.Map.{get, get_mut, try_get, contains_key, view, alter, map_in_place}
use neocache.Map.Spec.{Becomes, updated, updated_same}
use neocache.Map.Write.{write-Becomes}
use neocache.Prelude.{
  suc, ◌≤◌, ◌<◌, ◌≡◌, refl, sym, ◌∙◌, inl, inr, Bool, true, false, Option, none, some, arith,
  Option-cases, ok, ◌>>=◌, Returns, if◌then◌else◌,
}
use neocache.Shard.{Item, hash_item, Shard, has_key}
use neocache.Shard.Evict.{low_freq}
use neocache.Shard.Invariant.{IsValid, IsWithin}
use neocache.Shard.Lookup.{lookup}
use neocache.Shard.Lookup.Change.{found_lem, missed_lem}
use neocache.Table.{Key, RawTable}
use neocache.TryResult.{TryResult, present, absent, locked}

abbrev pub is_some : {A : Type 0} → Option A → Bool
is_some none = false
is_some (some x) = true

-- The counter never passes its cap, and below it counts each use.
pub bump_freq_lem :
    {V : Type 0} (e : CacheEntry V)
    → e.freq ≤ max_freq
    → ((bump_freq e).freq ≤ max_freq)
      × ((bump_freq e).value ≡ e.value)
      × ((bump_freq e).loc ≡ e.loc)
      × (e.freq < max_freq → (bump_freq e).freq ≡ suc e.freq)
      × (e.freq ≡ max_freq → bump_freq e ≡ e)
unfolding bump_freq
bump_freq_lem e low = ground arith

module _ {K V : Type 0} ⦃key : Key K⦄ (raw : RawTable (Item K V) hash_item) where
  open raw use {Table, Bucket, contents, find, write, contents-write}

  -- The bucket that a lookup returns: it holds the key with its value.
  abbrev pub Points : Shard raw → K → Option V → Option Bucket → Type 0
  Points s k x none = x ≡ none
  Points s k x (some b) =
      (e : Item K V) × (contents s.map b ≡ some e) × (e.0 ≡ k) × (x ≡ some e.1.value)

  -- A lookup of `k` in `s`: nothing that a user sees has changed.
  pub record Looked (s : Shard raw) (k : K) (r : Shard raw × Option Bucket) : Type 0 where
    pub valid : IsValid raw r.0
    pub within : IsWithin raw r.0
    pub cap : r.0.shard_cap ≡ s.shard_cap
    pub map : (j : K) → lookup raw r.0.map j ≡ lookup raw s.map j
    pub points : Points r.0 k (lookup raw s.map k) r.1

  module _ (s : Shard raw) (v : IsValid raw s) (within : IsWithin raw s) (k : K) where
    -- On a well-formed shard within its capacity `get` returns. If the key is stored it answers
    -- with a bucket that holds that key with its value, and otherwise with none; the shard stays
    -- well-formed within its capacity, and no stored value changes.
    pub get-Looked : Returns (get raw s k) (Looked s k)
    unfolding get
    get-Looked = elim (Option-cases (find s.map (key.hash_one k) (has_key raw k))) [
      | inl miss ↦ (
        (s, none),
        ground (arith, miss),
        record {
          valid = v;
          within = within;
          cap = refl;
          map = λ j. refl;
          points = missed_lem raw s.map k miss;
        },
      )
      | inr (b, hit) ↦
          let (e, here, same, value) = found_lem raw s.map k b hit in
          let (low, val, loc, _, _) =
            bump_freq_lem e.1 (low_freq raw s.map b e here v.placed.calm) in
          let w = write-Becomes raw s v within k b e here same (bump_freq e.1) loc low tt in
          (
            (record s { map = write s.map b (e.0, bump_freq e.1) }, some b),
            ground (arith, hit, here),
            record {
              valid = w.valid;
              within = w.within;
              cap = w.cap;
              map = λ j.
                  w.map j
                  ∙ sym (
                      updated_same (lookup raw s.map) k (some (bump_freq e.1).value) (rw val value)
                        j);
              points = (
                (e.0, bump_freq e.1),
                contents-write s.map b e (e.0, bump_freq e.1) here,
                same,
                rw val value,
              );
            },
          )
    ]

    -- `get_mut` finds and counts as `get` does, under the write lock.
    pub get_mut-eq-get : get_mut raw s k ≡ get raw s k
    unfolding get get_mut
    get_mut-eq-get = refl

    contains_of :
        (r : Shard raw × Option Bucket)
        → get raw s k ≡ ok r
        → Looked s k r
        → Returns
            (contains_key raw s k)
            (Becomes raw s (lookup raw s.map) (is_some (lookup raw s.map k)))
    unfolding contains_key
    contains_of (s', none) run l = (
      (s', false),
      ground (arith, run),
      record {
        valid = l.valid;
        within = l.within;
        cap = l.cap;
        returns = rw l.points;
        map = l.map;
      },
    )
    contains_of (s', some b) run l = (
      (s', true),
      ground (arith, run),
      record {
        valid = l.valid;
        within = l.within;
        cap = l.cap;
        returns = rw l.points.3;
        map = l.map;
      },
    )

    -- On a well-formed shard within its capacity `contains_key` returns whether the key is stored,
    -- and no stored value changes.
    pub contains_key-Becomes :
        Returns
          (contains_key raw s k)
          (Becomes raw s (lookup raw s.map) (is_some (lookup raw s.map k)))
    contains_key-Becomes = let (r, run, l) = get-Looked in contains_of r run l

    module _ {R : Type 0} (f : K → V → R) where
      view_of :
          (r : Shard raw × Option Bucket)
          → get raw s k ≡ ok r
          → Looked s k r
          → Returns
              (view raw s k f)
              (Becomes raw s (lookup raw s.map) (Option.map (f k) (lookup raw s.map k)))
      unfolding view
      view_of (s', none) run l = (
        (s', none),
        ground (arith, run),
        record {
          valid = l.valid;
          within = l.within;
          cap = l.cap;
          returns = rw l.points;
          map = l.map;
        },
      )
      view_of (s', some b) run l =
          let (e, here, same, value) = l.points in
          (
            (s', some (f e.0 e.1.value)),
            ground (arith, run, here),
            record {
              valid = l.valid;
              within = l.within;
              cap = l.cap;
              returns = rw (value, same) refl;
              map = l.map;
            },
          )

      -- On a well-formed shard within its capacity `view` returns what the closure makes of the key
      -- and its value if the key is stored, and none otherwise; no stored value changes.
      pub view-Becomes :
          Returns
            (view raw s k f)
            (Becomes raw s (lookup raw s.map) (Option.map (f k) (lookup raw s.map k)))
      view-Becomes = let (r, run, l) = get-Looked in view_of r run l

  abbrev pub answered : Option Bucket → TryResult Bucket
  answered none = absent
  answered (some b) = present b

  -- `try_get` gives up at once if the lock is taken, and otherwise does what `get` does.
  pub try_get-eq-get :
      (acquired : Bool) (s : Shard raw) (k : K)
      → try_get raw acquired s k
        ≡ (if acquired then (get raw s k >>= λ r. ok (r.0, answered r.1)) else ok (s, locked))
  unfolding get try_get
  try_get-eq-get false s k = refl
  try_get-eq-get true s k = elim (Option-cases (find s.map (key.hash_one k) (has_key raw k))) [
    | inl miss ↦ ground (arith, miss)
    | inr (b, hit) ↦ elim (Option-cases (contents s.map b)) [
      | inl empty ↦ ground (arith, hit, empty)
      | inr (e, here) ↦ ground (arith, hit, here)
    ]
  ]
