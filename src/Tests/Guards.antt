-- ===== src/Tests/Guards.antt =====
-- An assignment through a mapped guard at a concrete input: to the lowest bit of a number, after
-- both closures have written.
use mathlib.Core.Option
use neocache.MapRef.Guard.{Place}
use neocache.MapRef.Guard.Attempt.{try_map_at, Attempted, try_map-Attempted}
use neocache.MapRef.Guard.Through.{assign_at, Reaches, written, assign-Becomes}
use neocache.Map.Spec.{Becomes, updated}
use neocache.Prelude.{
  Option, none, if◌then◌else◌, ℕ, ◌+◌, ◌*◌, ◌/◌, ◌%◌, ◌≡◌, refl, Bool, true, false, to_nat, not,
  eqb, some, Returns, arith,
}
use neocache.Shard.Lookup.{lookup}
use neocache.Tests.Samples.{mixed, mixed-IsValid, mixed-IsWithin}
use neocache.Tests.Shards.{number_key, raw}

lowest_lem :
    (v : ℕ) (t u : Bool)
    → some (eqb (v % 2) 1) ≡ some t
    → some (eqb ((v / 2 * 2 + to_nat u) % 2) 1) ≡ some u
lowest_lem v t true h = ground arith
lowest_lem v t false h = ground arith

abbrev lowest_bit : Place ℕ Bool
lowest_bit = record {
  look = λ v. some (eqb (v % 2) 1);
  put = λ v u. v / 2 * 2 + to_nat u;
  look-put = lowest_lem;
}

-- Adds 11 to the value, and points to its lowest bit.
abbrev lowest : ℕ → ℕ × Place ℕ Bool
lowest x = (x + 11, lowest_bit)

-- Turns the bit, and points to all of it.
abbrev turned : Bool → Bool × Place Bool Bool
turned x = (not x, record { look = λ v. some v; put = λ v u. u; look-put = λ v t u h. refl })

reaches : (x : ℕ) → Reaches raw lowest turned true x
reaches x = (eqb ((x + 11) % 2) 1, refl, not (eqb ((x + 11) % 2) 1), refl)

assign_example : Returns (assign_at raw lowest turned true mixed 2) (
    Becomes raw mixed
      (updated
        (lookup raw mixed.map)
        2
        (Option.map (written raw lowest turned true) (lookup raw mixed.map 2)))
      (Option.map (λ x. true) (lookup raw mixed.map 2)))
assign_example =
    assign-Becomes raw lowest turned true mixed mixed-IsValid mixed-IsWithin 2 (λ x at. reaches x)

-- The value 20 becomes 31: 31 after the first closure, 30 after the second, 31 by the assignment.
stored_value : Option.map (written raw lowest turned true) (lookup raw mixed.map 2) ≡ some 31
unfolding lookup
stored_value = refl

-- Adds 11 to the value, and points to the lowest bit of a value that was odd.
abbrev odd_bit : ℕ → ℕ × Option (Place ℕ Bool)
odd_bit x = (x + 11, if eqb (x % 2) 1 then some lowest_bit else none)

-- The stored value 20 is even: an `Err` that has written.
try_map_example : Returns (try_map_at raw odd_bit mixed 2) (Attempted raw odd_bit mixed 2)
try_map_example = try_map-Attempted raw odd_bit mixed mixed-IsValid mixed-IsWithin 2
