-- ===== src/HashTable/Examples.antt =====
-- The theorems of the hash table at a concrete table, and runs.
use phlox.Common.{
  ℕ, zero, suc, ◌+◌, ◌%◌, ◌<◌, ◌≡◌, ◌⊎◌, refl, true, false, arith, List, [], ◌∷◌, ◌∈◌, ◌∉◌,
  Distinct, erase, none, some, ◌==◌, if◌then◌else◌,
}
use phlox.Common.Chains.{null, link, Run}
use phlox.HashTable.{
  HashTable, hash_elem, empty_table, prepend, hash_table_insert, hash_table_remove,
}
use phlox.HashTable.Iterate.{
  hash_table_foreach, hash_table_resize, move_elems, hash_table_rewind, hash_table_next, next_loop,
  advance, scan_buckets,
}
use phlox.Common.Total.{put, total, used}
use phlox.HashTable.Valid.{IsTable}
use phlox.HashTable.Change.{hash_table_insert-IsTable}
use phlox.HashTable.Remove.{hash_table_remove-IsTable}
use phlox.HashTable.Visit.{elems, hash_table_foreach-elems}

-- Two buckets, by parity: 10 and 20 in the first one, 31 in the second.
abbrev parity : (elem key range : ℕ) → ℕ
parity elem key range = (elem + key) % 2

abbrev three : HashTable
three = record {
  table = λ h. if h == 0 then 10 else 31;
  table_size = 2;
  num_elems = 3;
  num_buckets = 2;
  is_static = false;
  hash_func = parity;
  compare_func = none;
  next = link (λ _. null) 10 20;
}

abbrev chains_of_three : ℕ → List ℕ
chains_of_three h = if h == 0 then 10 ∷ 20 ∷ [] else 31 ∷ []

-- Each bucket in turn.
runs : (h : ℕ) → h < 2 → Run three.next (three.table h) (chains_of_three h)
runs zero b = (refl, omega arith, (refl, omega arith, refl))
runs (suc zero) b = (refl, omega arith, refl)
runs (suc (suc h)) b = absurd (omega arith)

each_once : (h : ℕ) → h < 2 → Distinct (chains_of_three h)
each_once zero b = (refl, (refl, tt))
each_once (suc zero) b = (refl, tt)
each_once (suc (suc h)) b = absurd (omega arith)

in_place : (h e : ℕ) → h < 2 → e ∈ chains_of_three h → hash_elem three e ≡ h
in_place zero e b i = ground (arith, i)
in_place (suc zero) e b i = ground (arith, i)
in_place (suc (suc h)) e b i = absurd (omega arith)

three-IsTable : IsTable three chains_of_three
unfolding total used
three-IsTable = record {
  hashed = λ e. omega arith;
  run = runs;
  distinct = each_once;
  placed = in_place;
  num_elems = refl;
  num_buckets = refl;
  small = omega arith;
}

hash_table_insert-IsTable_example :
    IsTable (hash_table_insert three 12) (put chains_of_three 0 (12 ∷ 10 ∷ 20 ∷ []))
hash_table_insert-IsTable_example =
    hash_table_insert-IsTable three chains_of_three 12 three-IsTable (omega arith) refl
      (omega arith)

hash_table_remove-IsTable_example :
    ((20 ∈ chains_of_three 0)
      × ((t' : HashTable) × (hash_table_remove three 20 ≡ some (true, t'))
          × IsTable t' (put chains_of_three 0 (erase 20 (chains_of_three 0)))))
    ⊎ ((20 ∉ chains_of_three 0) × (hash_table_remove three 20 ≡ some (false, three)))
hash_table_remove-IsTable_example = hash_table_remove-IsTable three chains_of_three 20 three-IsTable

hash_table_foreach-elems_example : hash_table_foreach three ≡ some (10 ∷ 20 ∷ 31 ∷ [])
unfolding elems
hash_table_foreach-elems_example =
    hash_table_foreach-elems three chains_of_three three-IsTable (omega arith)

-- With three buckets for two, 20 is in its new chain but no longer behind 10 when the iterator
-- gets there: 10 is moved, and its new successor, NULL, ends the chain.
resize_loses :
    elim (hash_table_resize 5 true three 4) [ none ↦ none | some (done, t) ↦ some t.num_elems ]
    ≡ some 2
unfolding hash_table_resize move_elems hash_table_rewind hash_table_next next_loop advance
    scan_buckets empty_table hash_table_insert prepend
resize_loses = refl
