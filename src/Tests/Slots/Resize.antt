-- ===== src/Tests/Slots/Resize.antt =====
-- Lists of slots that are resized or cloned.
use mathlib.Core.Option
use neocache.Prelude.{ℕ, zero, suc, ◌≡◌, refl, ap, Option, none, some, List, [], map, ◌∷◌, arith}
use neocache.Table.{weigh}
use neocache.Tests.Slots.Lists.{get, somes}

-- The full slots only.
abbrev pub compact : {E : Type 0} → List (Option E) → List (Option E)
compact [] = []
compact (none ∷ t) = compact t
compact (some e ∷ t) = some e ∷ compact t

pub compact-somes :
    {E : Type 0} (t : List (Option E)) (w : E → ℕ) → weigh w (somes (compact t)) ≡ weigh w (somes t)
unfolding weigh
compact-somes [] w = refl
compact-somes (none ∷ t) w = compact-somes t w
compact-somes (some e ∷ t) w = omega (arith, compact-somes t w)

pub get-compact :
    {E : Type 0} (t : List (Option E)) (b : ℕ) (e : E)
    → get (compact t) b ≡ some e
    → (c : ℕ) × (get t c ≡ some e)
get-compact [] b e h = absurd (ground (arith, h))
get-compact (none ∷ t) b e h = let (c, at) = get-compact t b e h in (suc c, at)
get-compact (some x ∷ t) zero e h = (0, h)
get-compact (some x ∷ t) (suc b) e h = let (c, at) = get-compact t b e h in (suc c, at)

pub compact-get :
    {E : Type 0} (t : List (Option E)) (c : ℕ) (e : E)
    → get t c ≡ some e
    → (b : ℕ) × (get (compact t) b ≡ some e)
compact-get [] c e h = absurd (ground (arith, h))
compact-get (none ∷ t) zero e h = absurd (ground (arith, h))
compact-get (none ∷ t) (suc c) e h = compact-get t c e h
compact-get (some x ∷ t) zero e h = (0, h)
compact-get (some x ∷ t) (suc c) e h = let (b, at) = compact-get t c e h in (suc b, at)

pub somes-map :
    {E : Type 0} (f : E → E) (t : List (Option E)) → somes (map (Option.map f) t) ≡ map f (somes t)
somes-map f [] = refl
somes-map f (none ∷ t) = somes-map f t
somes-map f (some e ∷ t) = ap (λ es. f e ∷ es) (somes-map f t)

pub get-map :
    {E : Type 0} (f : E → E) (t : List (Option E)) (b : ℕ)
    → get (map (Option.map f) t) b ≡ Option.map f (get t b)
get-map f [] b = refl
get-map f (x ∷ t) zero = refl
get-map f (x ∷ t) (suc b) = get-map f t b
