-- ===== src/Lock/Wakes.antt =====
-- The steps of the parking lot keep the invariant, and so does every step of a system.
use neocache.Lock.{
  Pc, idle, reading, load_exclusive, parked_exclusive, wake_readers, wake_downgraded, wake_writer,
  load_shared, parked_shared, cas_unlock, load_unlock, top,
}
use neocache.Lock.Invariant.{
  holds_shared, holds_exclusive, saw_readers, saw_writers, saw_any, bad, seeks_shared, succeeds,
  sleeps_shared, sleeps_exclusive, wakes_exclusive, weights, IsSound, IsRest, with_one,
}
use neocache.Lock.System.{get_elem?, set, System, unpark}
use neocache.Lock.Tally.{
  tally, others, tally-split, tally-set, others_mono, tally-map, tally-congr, tally-one, tally-some,
  tally-zero,
}
use mathlib.Core.Path.{fun_ext}
use neocache.Prelude.{
  ℕ, ◌+◌, ◌≤◌, ◌<◌, ◌≡◌, refl, sym, ◌∙◌, ap, ◌⊎◌, inl, inr, true, some, List, map, length, ltb,
  ltb→lt, Bool-cases, arith,
}

-- The invariant of a system.
abbrev pub IsSafe : System → Type 0
IsSafe s = IsSound s.word (λ f. tally f s.pcs)

IsSound-congr :
    (word : ℕ) (sum sum' : (Pc → ℕ) → ℕ)
    → ((f : Pc → ℕ) → sum f ≡ sum' f)
    → IsSound word sum
    → IsSound word sum'
IsSound-congr word sum sum' same i = let e : sum ≡ sum' = fun_ext same in rw e at i

shared-le-one : (p : Pc) → holds_shared p ≤ 1
unfolding weights
shared-le-one reading = omega arith
shared-le-one p = omega arith

readers-le : (p : Pc) → saw_readers p ≤ holds_exclusive p
unfolding weights
readers-le (cas_unlock state) = omega arith
readers-le p = omega arith

writers-le : (p : Pc) → saw_writers p ≤ holds_exclusive p
unfolding weights
writers-le (cas_unlock state) = omega arith
writers-le p = omega arith

any-le : (p : Pc) → saw_any p ≤ holds_exclusive p
unfolding weights
any-le load_unlock = omega arith
any-le p = omega arith

seeks-le : (p : Pc) → seeks_shared p ≤ succeeds p
unfolding weights
seeks-le load_shared = omega arith
seeks-le p = omega arith

pub others-IsRest :
    (ps : List Pc) (i : ℕ) (p : Pc)
    → get_elem? ps i ≡ some p
    → length ps < top
    → IsRest (λ f. others f ps i)
others-IsRest ps i p at few = record {
  few = omega (
    arith,
    few,
    tally-one ps,
    tally-split (λ q. 1) ps i p at,
    others_mono holds_shared (λ q. 1) ps i shared-le-one,
  );
  saw_readers_le = others_mono saw_readers holds_exclusive ps i readers-le;
  saw_writers_le = others_mono saw_writers holds_exclusive ps i writers-le;
  saw_any_le = others_mono saw_any holds_exclusive ps i any-le;
  seeks_le = others_mono seeks_shared succeeds ps i seeks-le;
}

-- The invariant at one thread and the rest, and back.
pub IsSafe-split :
    (word : ℕ) (ps : List Pc) (i : ℕ) (p : Pc)
    → get_elem? ps i ≡ some p
    → IsSafe (record { word = word; pcs = ps })
    → IsSound word (with_one (λ f. others f ps i) p)
IsSafe-split word ps i p at s =
    IsSound-congr word (λ f. tally f ps) (with_one (λ f. others f ps i) p)
      (λ f. tally-split f ps i p at) s

pub IsSafe-set :
    (word : ℕ) (ps : List Pc) (i : ℕ) (p q : Pc)
    → get_elem? ps i ≡ some p
    → IsSound word (with_one (λ f. others f ps i) q)
    → IsSafe (record { word = word; pcs = set ps i q })
IsSafe-set word ps i p q at s =
    IsSound-congr word (with_one (λ f. others f ps i) q) (λ f. tally f (set ps i q))
      (λ f. sym (tally-set f ps i p q at)) s

unpark-cases : (p : Pc) → (unpark p ≡ p) ⊎ (p ≡ parked_shared)
unpark-cases parked_shared = inr refl
unpark-cases p = inl refl

unpark_same : (f : Pc → ℕ) → f load_shared ≡ f parked_shared → (p : Pc) → f (unpark p) ≡ f p
unpark_same f same p = elim (unpark-cases p) [ inl e ↦ ap f e | inr e ↦ rw e same ]

sleeps-unpark : (p : Pc) → sleeps_shared (unpark p) ≡ 0
unfolding weights
sleeps-unpark parked_shared = refl
sleeps-unpark p = refl

-- `unpark_all`, called by a thread that then stands at `q`.
module _ (ps : List Pc) (i : ℕ) (p q : Pc) (at : get_elem? ps i ≡ some p) where
  abbrev sum' : (Pc → ℕ) → ℕ
  sum' f = tally f (map unpark (set ps i q))

  sum'-same : (f : Pc → ℕ) → f load_shared ≡ f parked_shared → sum' f ≡ f q + others f ps i
  sum'-same f same =
      tally-map f unpark (set ps i q)
      ∙ tally-congr (λ x. f (unpark x)) f (set ps i q) (unpark_same f same)
      ∙ tally-set f ps i p q at

  sum'-sleeps : sum' sleeps_shared ≡ 0
  sum'-sleeps =
      tally-map sleeps_shared unpark (set ps i q)
      ∙ tally-zero (λ x. sleeps_shared (unpark x)) (set ps i q) sleeps-unpark

pub unpark_readers-IsSafe :
    (word : ℕ) (ps : List Pc) (i : ℕ)
    → (at : get_elem? ps i ≡ some wake_readers)
    → IsSound word (with_one (λ f. others f ps i) wake_readers)
    → IsSafe (record { word = word; pcs = map unpark (set ps i idle) })
unfolding weights
unpark_readers-IsSafe word ps i at s =
    let same = sum'-same ps i wake_readers idle at in
    ground (
      arith,
      same holds_shared refl,
      same holds_exclusive refl,
      same saw_readers refl,
      same saw_writers refl,
      same saw_any refl,
      same bad refl,
      same seeks_shared refl,
      same succeeds refl,
      sum'-sleeps ps i wake_readers idle at,
      same sleeps_exclusive refl,
      same wakes_exclusive refl,
    )

pub unpark_downgraded-IsSafe :
    (word : ℕ) (ps : List Pc) (i : ℕ)
    → (at : get_elem? ps i ≡ some wake_downgraded)
    → IsSound word (with_one (λ f. others f ps i) wake_downgraded)
    → IsSafe (record { word = word; pcs = map unpark (set ps i reading) })
unfolding weights
unpark_downgraded-IsSafe word ps i at s =
    let same = sum'-same ps i wake_downgraded reading at in
    ground (
      arith,
      same holds_shared refl,
      same holds_exclusive refl,
      same saw_readers refl,
      same saw_writers refl,
      same saw_any refl,
      same bad refl,
      same seeks_shared refl,
      same succeeds refl,
      sum'-sleeps ps i wake_downgraded reading at,
      same sleeps_exclusive refl,
      same wakes_exclusive refl,
    )

-- A thread that wakes, and one that has woken a writer.
module _ (word : ℕ) (rest : (Pc → ℕ) → ℕ) where
  pub wake_reader-IsSound :
      IsSound word (with_one rest parked_shared) → IsSound word (with_one rest load_shared)
  unfolding weights
  wake_reader-IsSound i = ground arith

  pub wake_exclusive-IsSound :
      IsSound word (with_one rest parked_exclusive)
      → IsSound word (with_one rest (load_exclusive true))
  unfolding weights
  wake_exclusive-IsSound i = ground arith

  pub woken-IsSound :
      (0 < rest wakes_exclusive) ⊎ (rest sleeps_exclusive ≡ 0)
      → IsSound word (with_one rest wake_writer)
      → IsSound word (with_one rest idle)
  unfolding weights
  woken-IsSound (inl other) i = ground arith
  woken-IsSound (inr none_left) i = ground arith

-- Weighs a writer that has been woken.
woken : Pc → ℕ
woken (load_exclusive true) = 1
woken p = 0

woken-le : (p : Pc) → woken p ≤ wakes_exclusive p
unfolding woken weights
woken-le (load_exclusive true) = omega arith
woken-le p = omega arith

pub other-woken :
    (ps : List Pc) (i j : ℕ) (p : Pc)
    → get_elem? ps j ≡ some p
    → get_elem? (set ps j (load_exclusive true)) i ≡ some wake_writer
    → 0 < others wakes_exclusive (set ps j (load_exclusive true)) i
unfolding woken
other-woken ps i j p at-j at-i =
    let qs = set ps j (load_exclusive true) in
    omega (
      arith,
      tally-set woken ps j p (load_exclusive true) at-j,
      tally-split woken qs i wake_writer at-i,
      others_mono woken wakes_exclusive qs i woken-le,
    )

is_parked : (p : Pc) → 0 < sleeps_exclusive p → p ≡ parked_exclusive
unfolding weights
is_parked parked_exclusive h = refl
is_parked p h = absurd (omega arith)

pub no-sleepers :
    (ps : List Pc)
    → ((j : ℕ) → get_elem? ps j ≡ some parked_exclusive → ⊥)
    → tally sleeps_exclusive ps ≡ 0
no-sleepers ps never = elim (Bool-cases (ltb 0 (tally sleeps_exclusive ps))) [
  | inl some_sleeps ↦
      let (j, p, at, h) = tally-some sleeps_exclusive ps (ltb→lt 0 _ some_sleeps) in
      absurd (never j (at ∙ ap some (is_parked p h)))
  | inr none_sleeps ↦ ground (arith, none_sleeps)
]
