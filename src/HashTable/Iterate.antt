-- ===== src/HashTable/Iterate.antt =====
-- phlox/kernel/util/hash_table.c: the iterator, and what uses it.
use phlox.Common.{
  ℕ, zero, suc, ◌+◌, ◌-◌, ◌%◌, Bool, true, false, ◌&&◌, ◌||◌, not, Option, none, some, List, [],
  ◌∷◌, ◌==◌, ltb, if◌then◌else◌, u32_mod,
}
use phlox.Common.Chains.{null}
use phlox.HashTable.{HashTable, empty_table, hash_table_insert}

-- `bucket` is an `int`, given by its 32 bits.
pub record Iterator : Type 0 where
  pub bucket : ℕ
  pub node : ℕ

unfoldable pub hash_table_rewind : Iterator
hash_table_rewind = record { bucket = u32_mod - 1; node = null }

-- The table of the iterator is the argument of its routines; `none` is NULL.
unfoldable pub hash_table_open : (got_iterator : Bool) → Option Iterator
hash_table_open got_iterator = if got_iterator then some hash_table_rewind else none

-- The first used bucket from `index` on, of `n` buckets, or the one behind them.
unfoldable pub scan_buckets : ℕ → (table : ℕ → ℕ) → (index : ℕ) → ℕ
scan_buckets zero table index = index
scan_buckets (suc n) table index =
    let rest = scan_buckets n table (index + 1) in if table index == null then rest else index

-- The body of the loop of `hash_table_next`.
unfoldable pub advance : HashTable → Iterator → Iterator
advance t i =
    if i.node == null
    then (let start = (i.bucket + 1) % u32_mod in
        let index = scan_buckets (t.table_size - start) t.table start in
        record { node = if ltb index t.table_size then t.table index else i.node; bucket = index })
    else record i { node = t.next i.node }

-- The loop: two rounds are enough, since the second one finds a used bucket or none.
unfoldable pub next_loop : ℕ → HashTable → Iterator → Option Iterator
next_loop zero t i = none
next_loop (suc n) t i =
    let i' = advance t i in
    let rest = next_loop n t i' in
    if (i'.node == null) && ltb i'.bucket t.table_size then rest else some i'

-- The element is the node of the iterator that is returned.
unfoldable pub hash_table_next : HashTable → Iterator → Option Iterator
hash_table_next t i = next_loop 2 t i

-- The elements that the callback is called with, which leaves the table alone.
unfoldable pub foreach_from : ℕ → HashTable → Iterator → Option (List ℕ)
foreach_from zero t i = none
foreach_from (suc n) t i = elim (hash_table_next t i) [
  | none ↦ none
  | some i' ↦
      let rest = foreach_from n t i' in
      if i'.node == null then some [] else elim rest [ none ↦ none | some es ↦ some (i'.node ∷ es) ]
]

unfoldable pub hash_table_foreach : HashTable → Option (List ℕ)
hash_table_foreach t = foreach_from (t.num_elems + 1) t hash_table_rewind

-- The loop of `hash_table_resize`: the old table is read through the links as they are by then.
unfoldable pub move_elems : ℕ → (old tmp : HashTable) → Iterator → Option HashTable
move_elems zero old tmp i = none
move_elems (suc n) old tmp i = elim (hash_table_next (record old { next = tmp.next }) i) [
  | none ↦ none
  | some i' ↦
      let rest = move_elems n old (hash_table_insert tmp i'.node) i' in
      if i'.node == null then some tmp else rest
]

-- Whether the table was resized; the result of the source is 0 where it was.
unfoldable pub hash_table_resize :
    (fuel : ℕ) (got_table : Bool) → HashTable → (new_size : ℕ) → Option (Bool × HashTable)
hash_table_resize fuel got_table t new_size =
    if (new_size == 0) || (t.table_size == new_size) || t.is_static
    then some (false, t)
    else if not got_table
    then some (false, t)
    else elim (move_elems fuel t (empty_table t.next new_size false t.compare_func t.hash_func)
        hash_table_rewind) [ none ↦ none | some tmp ↦ some (true, tmp) ]
