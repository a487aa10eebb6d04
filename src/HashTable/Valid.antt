-- ===== src/HashTable/Valid.antt =====
-- When a hash table is well-formed, and how its counts follow its chains.
use phlox.Common.{ℕ, ◌<◌, ◌≡◌, List, ◌∈◌, Distinct, u32_mod}
use phlox.Common.Chains.{Run}
use phlox.Common.Total.{total, used}
use phlox.HashTable.{HashTable, hash_elem}

-- Each bucket has its chain, which ends; an element is in the chain of its hash, once; the counts
-- are those of the elements and of the used buckets. The hash function stays below the table size.
pub record IsTable (t : HashTable) (chains : ℕ → List ℕ) : Type 0 where
  pub hashed : (e : ℕ) → hash_elem t e < t.table_size
  pub run : (h : ℕ) → h < t.table_size → Run t.next (t.table h) (chains h)
  pub distinct : (h : ℕ) → h < t.table_size → Distinct (chains h)
  pub placed : (h e : ℕ) → h < t.table_size → e ∈ chains h → hash_elem t e ≡ h
  pub num_elems : t.num_elems ≡ total t.table_size chains
  pub num_buckets : t.num_buckets ≡ used t.table_size chains
  pub small : total t.table_size chains < u32_mod
