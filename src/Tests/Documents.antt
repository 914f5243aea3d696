-- ===== src/Tests/Documents.antt =====
-- The theorems on serialization at a concrete format, whose documents are lists of pairs.
use mathlib.Core.List.{Permᴰ, reverse}
use mathlib.Core.List.Permᴰ.{symm, reverse as permuted}
use neocache.Cache.{Cache, len, len_of}
use neocache.Cache.Valid.{IsCacheValid, value_at}
use neocache.Cache.Whole.Fresh.{last_of}
use neocache.Iter.Every.{pairs_of}
use neocache.Prelude.{
  ℕ, ◌<◌, ◌≡◌, refl, sym, ◌∙◌, ap, ◌⊎◌, inl, inr, Option, none, some, List, [], ◌∷◌, ◌++◌, map, ok,
  Returns, arith,
}
use neocache.Serde.{Serializer, MapAccess, serialize, visit_map}
use neocache.Serde.Read.{Yields, Visited, visit_map-Visited, serialize-visit_map}
use neocache.Serde.Write.{written, document, serialize-document}
use neocache.Tests.Entries.{pair_cache, pair_cache-IsCacheValid}
use neocache.Tests.Shards.{number_key, raw}

abbrev Pairs : Type 0
Pairs = List (ℕ × ℕ)

abbrev writer : Serializer ℕ ℕ
writer = record {
  State = Pairs;
  Error = ℕ;
  Ok = Pairs;
  serialize_map = λ n. inr [];
  serialize_entry = λ st k v. inr (st ++ (k, v) ∷ []);
  end = λ st. inr st;
}

-- An entry that cannot be read is the error 7.
abbrev next_pair : List (Option (ℕ × ℕ)) → ℕ ⊎ (List (Option (ℕ × ℕ)) × Option (ℕ × ℕ))
next_pair [] = inr ([], none)
next_pair (none ∷ rest) = inl 7
next_pair (some p ∷ rest) = inr (rest, some p)

abbrev reader : MapAccess ℕ ℕ
reader = record { State = List (Option (ℕ × ℕ)); Error = ℕ; next_entry = next_pair }

read_pairs : (kvs : Pairs) → Yields reader (map some kvs) kvs none
unfolding Yields
read_pairs [] = ([], refl)
read_pairs (kv ∷ kvs) = (map some kvs, refl, read_pairs kvs)

four : len raw pair_cache < 5
unfolding len len_of
four = omega arith

serialize_example :
    serialize raw writer 5 pair_cache ≡ ok (document writer (pairs_of raw pair_cache.shards))
serialize_example = serialize-document raw writer pair_cache 5 four

abbrev cut_short : List (Option (ℕ × ℕ))
cut_short = some (1, 10) ∷ none ∷ []

cut_short-Yields : Yields reader cut_short ((1, 10) ∷ []) (some 7)
unfolding Yields
cut_short-Yields = (none ∷ [], refl, refl)

visit_example :
    Returns
      (visit_map raw reader 4 5 cut_short)
      (Visited raw reader (last_of (λ j. none) ((1, 10) ∷ [])) (some 7))
visit_example =
    visit_map-Visited raw reader 4 5 cut_short ((1, 10) ∷ []) (some 7) (omega arith) (omega arith)
      cut_short-Yields (omega arith)

abbrev pair_document : Pairs
pair_document = (1, 10) ∷ (2, 20) ∷ (3, 30) ∷ (4, 40) ∷ []

pair_cache-document : serialize raw writer 5 pair_cache ≡ ok (inr pair_document)
unfolding document written
pair_cache-document = serialize_example

-- The reader gives the pairs from the last to the first.
abbrev backwards : Pairs → List (Option (ℕ × ℕ))
backwards doc = map some (reverse doc)

append_one : (xs : Pairs) (y : ℕ × ℕ) (ys : Pairs) → (xs ++ y ∷ []) ++ ys ≡ xs ++ y ∷ ys
append_one [] y ys = refl
append_one (x ∷ xs) y ys = ap (λ zs. x ∷ zs) (append_one xs y ys)

append_nil : (xs : Pairs) → xs ++ [] ≡ xs
append_nil [] = refl
append_nil (x ∷ xs) = ap (λ ys. x ∷ ys) (append_nil xs)

written_pairs : (kvs st : Pairs) → written writer kvs st ≡ inr (st ++ kvs)
unfolding written
written_pairs [] st = ap inr (sym (append_nil st))
written_pairs ((k, v) ∷ kvs) st =
    written_pairs kvs (st ++ (k, v) ∷ []) ∙ ap inr (append_one st (k, v) kvs)

pairs_read :
    (kvs : Pairs)
    → document writer kvs ≡ inr pair_document
    → (kvs' : Pairs) × Permᴰ kvs kvs' × Yields reader (backwards pair_document) kvs' none
unfolding document
pairs_read kvs wrote =
    let same : kvs ≡ pair_document = ground (arith, wrote, written_pairs kvs []) in
    (
      reverse pair_document,
      rw same (symm (permuted pair_document)),
      read_pairs (reverse pair_document),
    )

restored_example :
    (d : Cache raw) × (visit_map raw reader 4 5 (backwards pair_document) ≡ ok (inr d))
    × IsCacheValid raw 0 d
    × ((j : ℕ) → value_at raw d j ≡ value_at raw pair_cache j)
restored_example =
    serialize-visit_map raw writer reader backwards 4 pair_cache 5 4 pair_document
      pair_cache-IsCacheValid four (omega arith) (omega arith) pair_cache-document pairs_read
