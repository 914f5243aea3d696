-- ===== src/Table.antt =====
-- What the cache uses and does not implement: keys with their hasher, and hashbrown's raw table.
-- A `Bucket` is a pointer to a slot, an `InsertSlot` a free place that a probe has found.
mod Weigh
unfoldable pub use Weigh.*
use mathlib.Core.Option
use neocache.Prelude.{
  ℕ, ◌+◌, ◌<◌, ◌^◌, ◌≡◌, ◌≢◌, ◌↔◌, Bool, true, Option, none, some, List, [], map, ◌&&◌, to_nat, eqb,
  All, IsDistinct,
}

-- `K: Eq + Hash` with the map's `BuildHasher`.
pub record Key (K : Type 0) : Type 0 where
  pub beq : K → K → Bool
  pub beq_iff : (a b : K) → (beq a b ≡ true) ↔ (a ≡ b)
  pub hash_one : K → ℕ
  pub hash-lt : (a : K) → hash_one a < 2 ^ 64

-- The answer of `find_or_find_insert_slot`: `Ok(bucket)` or `Err(slot)`.
pub data Probe (B S : Type 0) : Type 0 where
  occupied : B → Probe B S
  vacant : S → Probe B S

-- `hashbrown::raw::RawTable<E>`, whose elements are hashed by `hash_of`. `elements` is what `iter`
-- walks through. `Fits t h s` says that `s` is still good for an insertion at hash `h`: as the
-- comments at `VacantEntry::new` have it, removals and writes to elements keep a slot good. `clone` clones
-- every element by `f` into its bucket. Resizing keeps the elements, and so does a reservation that fails, which `false` stands for.
pub record RawTable (E : Type 0) (hash_of : E → ℕ) : Type 1 where
  pub Table : Type 0
  pub Bucket : Type 0
  pub InsertSlot : Type 0
  pub with_capacity : ℕ → Table
  pub capacity : Table → ℕ
  pub elements : Table → List E
  pub contents : Table → Bucket → Option E
  pub find : Table → ℕ → (E → Bool) → Option Bucket
  pub find_or_find_insert_slot : Table → ℕ → (E → Bool) → Table × Probe Bucket InsertSlot
  pub write : Table → Bucket → E → Table
  pub remove : Table → Bucket → Table
  pub insert_in_slot : Table → ℕ → InsertSlot → E → Table × Bucket
  pub iter : Table → List Bucket
  pub shrink_to : Table → ℕ → Table
  pub try_reserve : Table → ℕ → Table × Bool
  pub clone : (f : E → E) → ((e : E) → hash_of (f e) ≡ hash_of e) → Table → Table
  pub Fits : Table → ℕ → InsertSlot → Type 0
  pub elements-iter : (t : Table) → elements t ≡ walk (contents t) (iter t)
  pub iter-full : (t : Table) → All (λ b. (e : E) × (contents t b ≡ some e)) (iter t)
  pub iter-distinct : (t : Table) → IsDistinct (iter t)
  pub bucket_eq : Discrete Bucket
  pub contents-remove : (t : Table) (b : Bucket) → contents (remove t b) b ≡ none
  pub contents-remove_ne :
      (t : Table) (b c : Bucket) → c ≢ b → contents (remove t b) c ≡ contents t c
  pub contents-write_ne :
      (t : Table) (b c : Bucket) (e : E) → c ≢ b → contents (write t b e) c ≡ contents t c
  pub elements-with_capacity : (n : ℕ) → elements (with_capacity n) ≡ []
  pub find-some :
      (t : Table) (h : ℕ) (eq : E → Bool) (b : Bucket)
      → find t h eq ≡ some b
      → (e : E) × (contents t b ≡ some e) × (eq e ≡ true)
  pub find-none :
      (t : Table) (h : ℕ) (eq : E → Bool)
      → find t h eq ≡ none
      → weigh (λ e. to_nat (eqb (hash_of e) h && eq e)) (elements t) ≡ 0
  pub probe-elements :
      (t : Table) (h : ℕ) (eq : E → Bool) (w : E → ℕ)
      → weigh w (elements (find_or_find_insert_slot t h eq).0) ≡ weigh w (elements t)
  pub probe-occupied :
      (t : Table) (h : ℕ) (eq : E → Bool) (b : Bucket)
      → (find_or_find_insert_slot t h eq).1 ≡ occupied b
      → (e : E) × (contents (find_or_find_insert_slot t h eq).0 b ≡ some e) × (eq e ≡ true)
  pub probe-vacant :
      (t : Table) (h : ℕ) (eq : E → Bool) (s : InsertSlot)
      → (find_or_find_insert_slot t h eq).1 ≡ vacant s
      → (weigh (λ e. to_nat (eqb (hash_of e) h && eq e)) (elements t) ≡ 0)
        × Fits (find_or_find_insert_slot t h eq).0 h s
  pub probe-contents :
      (t : Table) (h : ℕ) (eq : E → Bool) (b : Bucket) (e : E)
      → contents (find_or_find_insert_slot t h eq).0 b ≡ some e
      → (c : Bucket) × (contents t c ≡ some e)
  pub contents-probe :
      (t : Table) (h : ℕ) (eq : E → Bool) (c : Bucket) (e : E)
      → contents t c ≡ some e
      → (b : Bucket) × (contents (find_or_find_insert_slot t h eq).0 b ≡ some e)
  pub write-elements :
      (t : Table) (b : Bucket) (e f : E) (w : E → ℕ)
      → contents t b ≡ some e
      → hash_of f ≡ hash_of e
      → weigh w (elements (write t b f)) + w e ≡ weigh w (elements t) + w f
  pub contents-write :
      (t : Table) (b : Bucket) (e f : E) → contents t b ≡ some e → contents (write t b f) b ≡ some f
  pub remove-elements :
      (t : Table) (b : Bucket) (e : E) (w : E → ℕ)
      → contents t b ≡ some e
      → weigh w (elements (remove t b)) + w e ≡ weigh w (elements t)
  pub Fits-write :
      (t : Table) (b : Bucket) (e f : E) (h : ℕ) (s : InsertSlot)
      → contents t b ≡ some e
      → hash_of f ≡ hash_of e
      → Fits t h s
      → Fits (write t b f) h s
  pub Fits-remove :
      (t : Table) (b : Bucket) (e : E) (h : ℕ) (s : InsertSlot)
      → contents t b ≡ some e
      → Fits t h s
      → Fits (remove t b) h s
  pub insert-elements :
      (t : Table) (h : ℕ) (s : InsertSlot) (e : E) (w : E → ℕ)
      → Fits t h s
      → hash_of e ≡ h
      → weigh w (elements (insert_in_slot t h s e).0) ≡ weigh w (elements t) + w e
  pub contents-insert :
      (t : Table) (h : ℕ) (s : InsertSlot) (e : E)
      → Fits t h s
      → hash_of e ≡ h
      → contents (insert_in_slot t h s e).0 (insert_in_slot t h s e).1 ≡ some e
  pub contents-insert_ne :
      (t : Table) (h : ℕ) (s : InsertSlot) (e : E) (c : Bucket)
      → Fits t h s
      → c ≢ (insert_in_slot t h s e).1
      → contents (insert_in_slot t h s e).0 c ≡ contents t c
  pub shrink-elements :
      (t : Table) (n : ℕ) (w : E → ℕ) → weigh w (elements (shrink_to t n)) ≡ weigh w (elements t)
  pub shrink-contents :
      (t : Table) (n : ℕ) (b : Bucket) (e : E)
      → contents (shrink_to t n) b ≡ some e
      → (c : Bucket) × (contents t c ≡ some e)
  pub contents-shrink :
      (t : Table) (n : ℕ) (c : Bucket) (e : E)
      → contents t c ≡ some e
      → (b : Bucket) × (contents (shrink_to t n) b ≡ some e)
  pub reserve-elements :
      (t : Table) (n : ℕ) (w : E → ℕ)
      → weigh w (elements (try_reserve t n).0) ≡ weigh w (elements t)
  pub reserve-contents :
      (t : Table) (n : ℕ) (b : Bucket) (e : E)
      → contents (try_reserve t n).0 b ≡ some e
      → (c : Bucket) × (contents t c ≡ some e)
  pub contents-reserve :
      (t : Table) (n : ℕ) (c : Bucket) (e : E)
      → contents t c ≡ some e
      → (b : Bucket) × (contents (try_reserve t n).0 b ≡ some e)
  pub clone-elements :
      (f : E → E) (same : (e : E) → hash_of (f e) ≡ hash_of e) (t : Table)
      → elements (clone f same t) ≡ map f (elements t)
  pub contents-clone :
      (f : E → E) (same : (e : E) → hash_of (f e) ≡ hash_of e) (t : Table) (b : Bucket)
      → contents (clone f same t) b ≡ Option.map f (contents t b)
