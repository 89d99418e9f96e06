-- ===== src/HashMap.antt =====
-- What src/core/db.cpp uses of khash: a table from 32-bit hashes to pointers, whose places are
-- numbered. The hash table itself is a library's, so it is a parameter of the model.
pub mod Slots
use simple_cache.Base.{ℕ, ◌+◌, ◌≡◌, ◌≢◌, Option, none, some, ◌==◌, if◌then◌else◌}

-- `kh_init`, `kh_end`, `kh_get`, `kh_value` where `kh_exist` holds, `kh_put` with the value set,
-- `kh_del`, `kh_size`
pub record KHash : Type 1 where
  pub Map : Type 0
  pub init : Map
  pub end : Map → ℕ
  pub get : Map → ℕ → ℕ
  pub value : Map → ℕ → Option ℕ
  pub put : Map → ℕ → ℕ → Map
  pub del : Map → ℕ → Map
  pub size : Map → ℕ

-- The value that `kh_get` and `kh_value` lead to.
abbrev pub find : (kh : KHash) → kh.Map → ℕ → Option ℕ
find kh m h = if kh.get m h == kh.end m then none else kh.value m (kh.get m h)

-- The documented behaviour of the library.
pub record IsMap (kh : KHash) : Type 0 where
  pub find-init : (h : ℕ) → find kh kh.init h ≡ none
  pub find-put_same : (m : kh.Map) (h v : ℕ) → find kh (kh.put m h v) h ≡ some v
  pub find-put_other : (m : kh.Map) (h v g : ℕ) → g ≢ h → find kh (kh.put m h v) g ≡ find kh m g
  pub find-del_same :
      (m : kh.Map) (h v : ℕ) → find kh m h ≡ some v → find kh (kh.del m (kh.get m h)) h ≡ none
  pub find-del_other :
      (m : kh.Map) (h v g : ℕ)
      → find kh m h ≡ some v
      → g ≢ h
      → find kh (kh.del m (kh.get m h)) g ≡ find kh m g
  pub size-init : kh.size kh.init ≡ 0
  pub size-put_new :
      (m : kh.Map) (h v : ℕ) → find kh m h ≡ none → kh.size (kh.put m h v) ≡ kh.size m + 1
  pub size-del :
      (m : kh.Map) (h v : ℕ)
      → find kh m h ≡ some v
      → kh.size (kh.del m (kh.get m h)) + 1 ≡ kh.size m
