-- ===== src/Lock/System.antt =====
-- Threads over one lock, interleaved in any order. `park` and the two `unpark` functions are
-- parking_lot_core's: a thread whose validation holds waits, `unpark_all` wakes every thread of the
-- key's queue, and `unpark_one` wakes one of them if there is any. A thread may also wake by itself.
use neocache.Lock.{
  Pc, idle, reading, load_exclusive, parked_exclusive, wake_readers, wake_downgraded, wake_writer,
  load_shared, parked_shared, Choice, step,
}
use neocache.Prelude.{ℕ, zero, suc, ◌≡◌, Option, none, some, List, [], ◌∷◌, map, true}

module _ {A : Type 0} where
  abbrev pub get_elem? : List A → ℕ → Option A
  get_elem? [] i = none
  get_elem? (x ∷ xs) zero = some x
  get_elem? (x ∷ xs) (suc i) = get_elem? xs i

  abbrev pub set : List A → ℕ → A → List A
  set [] i y = []
  set (x ∷ xs) zero y = y ∷ xs
  set (x ∷ xs) (suc i) y = x ∷ set xs i y

  abbrev pub replicate : ℕ → A → List A
  replicate zero x = []
  replicate (suc n) x = x ∷ replicate n x

pub record System : Type 0 where
  pub word : ℕ
  pub pcs : List Pc

-- What `unpark_all` on the readers' key does to a thread.
abbrev pub unpark : Pc → Pc
unpark parked_shared = load_shared
unpark p = p

pub data Step (s : System) : System → Type 0 where
  turn :
      (i : ℕ) (p : Pc) (ch : Choice)
      → get_elem? s.pcs i ≡ some p
      → Step s (record { word = (step ch s.word p).0; pcs = set s.pcs i (step ch s.word p).1 })
  all_readers :
      (i : ℕ)
      → get_elem? s.pcs i ≡ some wake_readers
      → Step s (record s { pcs = map unpark (set s.pcs i idle) })
  all_downgraded :
      (i : ℕ)
      → get_elem? s.pcs i ≡ some wake_downgraded
      → Step s (record s { pcs = map unpark (set s.pcs i reading) })
  one_writer :
      (i j : ℕ)
      → get_elem? s.pcs j ≡ some parked_exclusive
      → get_elem? (set s.pcs j (load_exclusive true)) i ≡ some wake_writer
      → Step s (record s { pcs = set (set s.pcs j (load_exclusive true)) i idle })
  no_writer :
      (i : ℕ)
      → get_elem? s.pcs i ≡ some wake_writer
      → ((j : ℕ) → get_elem? s.pcs j ≡ some parked_exclusive → ⊥)
      → Step s (record s { pcs = set s.pcs i idle })
  wake_reader :
      (i : ℕ)
      → get_elem? s.pcs i ≡ some parked_shared
      → Step s (record s { pcs = set s.pcs i load_shared })
  wake_exclusive :
      (i : ℕ)
      → get_elem? s.pcs i ≡ some parked_exclusive
      → Step s (record s { pcs = set s.pcs i (load_exclusive true) })

-- `n` threads, from the word of `INIT`.
abbrev pub init : ℕ → System
init n = record { word = 0; pcs = replicate n idle }

pub data Reach (n : ℕ) : System → Type 0 where
  start : Reach n (init n)
  later : {s t : System} → Reach n s → Step s t → Reach n t
