-- ===== src/Db/Load/Opened.antt =====
-- What `db_open` leaves where there is no index.
use simple_cache.Base.{ℕ, ◌/◌, ◌^◌, ◌<◌, ◌≤◌, ◌≡◌, refl, arith, none, some, true, [], ◌>>=◌}
use simple_cache.Blocks.{block_length}
use simple_cache.Blocks.Ownership.{Owns}
use simple_cache.Store.Lru.{IsLru}
use simple_cache.Db.{Env, Db}
use simple_cache.Db.Load.{Disk, db_open, open_reset}
use simple_cache.Db.Load.Free.{open_blank_lem}

-- `db_open` without an index ends, for a block file of fewer than 2^32 blocks where `ftruncate`
-- succeeds, in a database without tables, with an empty LRU list, with no bytes and no keys, and with
-- at most 8192 blocks, all of them free.
pub db_open-blank :
    {v : Env} (disk : Disk) (size : ℕ) (d : Db v)
    → v.truncates ≡ true
    → size / block_length < 2 ^ 32
    → (d' : Db v) × (db_open disk (some size) none d ≡ some d')
      × Owns d'.blocks []
      × (d'.blocks.blocks_exist ≤ 8192)
      × IsLru d'.store []
      × (d'.tables ≡ v.kh.init)
      × (d'.size_bytes ≡ 0)
      × (d'.keys ≡ 0)
unfolding db_open open_reset
db_open-blank {v} disk size d t l =
    let d1 = open_reset size d in
    let r = open_blank_lem size d1.blocks refl refl (omega arith) in
    (
      record d1 { blocks = r.0 },
      rw (db_open, ◌>>=◌, t) (rw (r.1, ◌>>=◌) refl),
      r.2,
      r.3,
      record { chain = tt; head = refl; tail = refl; distinct = tt },
      refl,
      refl,
      refl,
    )
