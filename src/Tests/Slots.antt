-- ===== src/Tests/Slots.antt =====
-- A raw table as a list of slots that grows at the end: it shows that the laws of `RawTable` can
-- hold, and runs in the tests.
mod Lists
mod Resize
use mathlib.Core.Option
use mathlib.Core.Logic.{◌≢◌}
use native.Mathlib.Decide.{ℕ_discrete}
use neocache.Prelude.{
  ℕ, zero, suc, ◌+◌, ◌≤◌, ◌≡◌, refl, ap, Bool, true, ◌&&◌, Option, none, some, List, [], map, ◌∷◌,
  ◌++◌, length, eqb, leb, to_nat, All, IsDistinct, arith, if◌then◌else◌, Option-cases, inl, inr,
  Bool-cases,
}
use neocache.Table.{RawTable, Probe, occupied, vacant, weigh, walk}
use neocache.Tests.Slots.Lists.{
  get, put, somes, full_from, find_from, find_from-none, put-somes, drop-somes, push-somes,
  get-push, get-push_ne, get-put, get-drop, get-put_ne, full_from-walk, full_from-full,
  full_from-IsDistinct, probe, probe-occupied, probe-vacant, zero_add, found_at,
}
use neocache.Tests.Slots.Resize.{
  compact, compact-somes, get-compact, compact-get, somes-map, get-map,
}

abbrev pub slots : {E : Type 0} (hash_of : E → ℕ) → RawTable E hash_of
slots {E} hash_of = record {
  Table = List (Option E);
  Bucket = ℕ;
  InsertSlot = Unit {0};
  with_capacity = λ n. [];
  capacity = λ t. length t;
  elements = somes;
  contents = get;
  find = λ t h eq. find_from 0 eq t;
  find_or_find_insert_slot = λ t h eq. probe t eq;
  write = λ t b e. put t b (some e);
  remove = λ t b. put t b none;
  insert_in_slot = λ t h s e. (t ++ some e ∷ [], length t);
  iter = full_from 0;
  shrink_to = λ t n. compact t;
  clone = λ f same t. map (Option.map f) t;
  try_reserve = λ t n. (t, leb n 100);
  Fits = λ t h s. Unit;
  elements-iter = λ t. full_from-walk 0 t (get t) (λ i. zero_add t i);
  iter-full = λ t. full_from-full 0 t (get t) (λ i. zero_add t i);
  iter-distinct = full_from-IsDistinct 0;
  bucket_eq = ℕ_discrete;
  contents-remove = get-drop;
  contents-remove_ne = λ t b c h. get-put_ne t b c none h;
  contents-write_ne = λ t b c e h. get-put_ne t b c (some e) h;
  elements-with_capacity = λ n. refl;
  find-some = λ t h eq b p. found_at t eq b p;
  find-none = λ t h eq p. find_from-none 0 eq (λ e. eqb (hash_of e) h) t p;
  probe-elements = λ t h eq w. refl;
  probe-occupied = λ t h eq b p. probe-occupied t eq b p;
  probe-vacant = λ t h eq s p. (probe-vacant (λ e. eqb (hash_of e) h) t eq s p, tt);
  probe-contents = λ t h eq b e p. (b, p);
  contents-probe = λ t h eq c e p. (c, p);
  write-elements = λ t b e f w p q. put-somes t b e f w p;
  contents-write = λ t b e f p. get-put t b e (some f) p;
  remove-elements = λ t b e w p. drop-somes t b e w p;
  Fits-write = λ t b e f h s p q r. tt;
  Fits-remove = λ t b e h s p q. tt;
  insert-elements = λ t h s e w p q. push-somes t e w;
  contents-insert = λ t h s e p q. get-push t e;
  contents-insert_ne = λ t h s e c p q. get-push_ne t e c q;
  shrink-elements = λ t n w. compact-somes t w;
  shrink-contents = λ t n b e p. get-compact t b e p;
  contents-shrink = λ t n c e p. compact-get t c e p;
  reserve-elements = λ t n w. refl;
  reserve-contents = λ t n b e p. (b, p);
  contents-reserve = λ t n c e p. (c, p);
  clone-elements = λ f same t. somes-map f t;
  contents-clone = λ f same t b. get-map f t b;
}
