-- ===== src/Db/Load/Table.antt =====
-- The rows of a table's entries, loaded one after the other.
use simple_cache.Base.{
  ℕ, ◌+◌, ◌^◌, ◌≤◌, ◌<◌, ◌≡◌, ◌≢◌, refl, sym, ◌∙◌, ap, subst, arith, false, Option, none, some,
  List, [], ◌∷◌, ◌++◌, map, append_assoc, append-nil, length, mem, Distinct, ==_self, ==_ne, ◌==◌,
  ◌>>=◌, Bool-cases, inl, inr,
}
use mathlib.Core.Option
use mathlib.Core.Option.{none-ne-some}
use simple_cache.Store.{Ptr, Entry}
use simple_cache.Store.Unlink.{data_of}
use simple_cache.Store.Lru.{IsLru}
use simple_cache.HashMap.{IsMap, find}
use simple_cache.Db.{Env, Table, Db}
use simple_cache.Db.RoundTrip.{IsLru-allocate}
use simple_cache.Db.Lookup.Write.{IsUsable}
use simple_cache.Db.Index.Text.{Item, entry_item}
use simple_cache.Db.Load.{Disk, Loading, mark_block, loaded_entry, load_entry, with_loaded}
use simple_cache.Db.Load.Scans.{IsSaved, scanned, restored, restored_lem}
use simple_cache.Db.Load.Rows.{load_items, load_item, load_saved}
use simple_cache.Db.Load.Leak.{load-run}
use simple_cache.Db.Load.Entries.{
  referred, table_after, block_of, IsPresent, Kept, keep_entry-Kept_any,
}

-- No entry in memory.
none_of : (o : Option Entry) → Option.map data_of o ≡ none → o ≡ none
none_of none e = refl
none_of (some r) e = absurd (none-ne-some (data_of r) (sym e))

abbrev pub saved_hash : Env → Entry → ℕ
saved_hash v e = v.hash e.key (length e.key)

abbrev pub hashes : Env → List Entry → List ℕ
hashes v es = map (saved_hash v) es

-- The marks of the blocks of the entries, over those from before.
abbrev pub marks : List Entry → List ℕ → List ℕ
marks [] ns = ns
marks (e ∷ es) ns = marks es (mark_block (block_of e.block) ns)

-- The addresses that `malloc` returns from call `k` on.
abbrev pub addresses : Disk → ℕ → List Entry → List Ptr
addresses disk k [] = []
addresses disk k (e ∷ es) = disk.fresh k ∷ addresses disk (k + 1) es

-- The entries can be saved, and each has its block below `blocks`, or its file.
abbrev pub AllPresent : Env → Disk → Ptr → ℕ → ℕ → List Entry → Type 0
AllPresent v disk t blocks table [] = Unit {0}
AllPresent v disk t blocks table (e ∷ es) =
    (IsSaved e × IsPresent disk blocks table (restored t (saved_hash v e) e) e.block)
    × AllPresent v disk t blocks table es

-- No entry of the list has a hash that the table holds.
abbrev pub AllNew : (v : Env) → v.kh.Map → List Entry → Type 0
AllNew v m [] = Unit {0}
AllNew v m (e ∷ es) = (find v.kh m (saved_hash v e) ≡ none) × AllNew v m es

module _ {v : Env} where
  -- The entry is at `p`, as it was saved but with one reference, and in the table at `t`.
  abbrev pub IsHeld : Db v → v.kh.Map → Ptr → Ptr → Entry → Type 0
  IsHeld d m t p e =
      (Option.map data_of (d.store.entries p)
        ≡ some (data_of (referred (restored t (saved_hash v e) e))))
      × (find v.kh m (saved_hash v e) ≡ some p)

  -- Each of the entries is held, where `malloc` gave it its memory from call `k` on.
  abbrev pub AllHeld : Disk → Db v → v.kh.Map → Ptr → ℕ → List Entry → Type 0
  AllHeld disk d m t k [] = Unit {0}
  AllHeld disk d m t k (e ∷ es) = IsHeld d m t (disk.fresh k) e × AllHeld disk d m t (k + 1) es

-- The table `tb` at `t` takes entries, and `malloc` gives memory that is not in use.
pub record IsReady {v : Env} (disk : Disk) (l : Loading v) (t : Ptr) (tb : Table v) (m : v.kh.Map)
    (ps : List Ptr) : Type 0 where
  pub usable : IsUsable l.db t tb m
  pub roomy : v.kh.size m ≡ 0 → tb.refs + 2 < 2 ^ 15
  pub lru : IsLru l.db.store ps
  pub table : l.table ≡ some t
  pub unused : (k : ℕ) → l.mallocs ≤ k → l.db.store.entries (disk.fresh k) ≡ none

-- What the rows of the entries leave.
pub record Loaded {v : Env} (disk : Disk) (l l' : Loading v) (t : Ptr) (tb tb' : Table v)
    (m m' : v.kh.Map) (ps : List Ptr) (es : List Entry) : Type 0 where
  pub ready : IsReady disk l' t tb' m' (ps ++ addresses disk l.mallocs es)
  pub held : AllHeld disk l'.db m' t l.mallocs es
  pub blocks : l'.db.blocks ≡ l.db.blocks
  pub tables : l'.db.tables ≡ l.db.tables
  pub marked : l'.marked ≡ marks es l.marked
  pub name : (tb'.key ≡ tb.key) × (tb'.key_length ≡ tb.key_length) × (tb'.hash ≡ tb.hash)
  pub others :
      (q : Ptr)
      → ((k : ℕ) → l.mallocs ≤ k → disk.fresh k ≢ q)
      → Option.map data_of (l'.db.store.entries q) ≡ Option.map data_of (l.db.store.entries q)
  pub kept_hashes : (g : ℕ) → mem g (hashes v es) ≡ false → find v.kh m' g ≡ find v.kh m g

items-run :
    {v : Env} (disk : Disk) (t : Ptr) (e : Entry) (xs : List Item) (l l1 l2 : Loading v)
    → l.table ≡ some t
    → load_entry disk t (scanned e) l ≡ some l1
    → load_items disk xs l1 ≡ some l2
    → load_items disk (entry_item e ∷ xs) l ≡ some l2
unfolding load_items load_item
items-run disk t e xs l l1 l2 at run rest =
    ap (λ r. r >>= load_items disk xs) (ap (λ o. load_saved disk o e l) at ∙ run) ∙ rest

module _ {v : Env} (im : IsMap v.kh) (disk : Disk)
    (apart : (i j : ℕ) → disk.fresh i ≡ disk.fresh j → i ≡ j) (t : Ptr) where
  module _ (l : Loading v) (tb : Table v) (m : v.kh.Map) (ps : List Ptr) (e : Entry)
      (r : IsReady disk l t tb m ps) (saved : IsSaved e)
      (present : IsPresent disk l.db.blocks.blocks_exist tb.hash
        (restored t (saved_hash v e) e)
        e.block)
      (new : find v.kh m (saved_hash v e) ≡ none) where
    abbrev p : Ptr
    p = disk.fresh l.mallocs

    abbrev x : Entry
    x = loaded_entry t (saved_hash v e) (scanned e)

    abbrev d : Db v
    d = with_loaded p x l.db

    abbrev next : Db v → Loading v
    next d' = record l {
      marked = mark_block (block_of e.block) l.marked;
      mallocs = l.mallocs + 1;
      db = d';
    }

    same : x ≡ restored t (saved_hash v e) e
    same = restored_lem t (saved_hash v e) e saved

    step :
        (d' : Db v) × (load_entry disk t (scanned e) l ≡ some (next d')) × Kept d d' t p x tb m ps
    step =
        let free = r.unused l.mallocs (omega arith) in
        let k =
          keep_entry-Kept_any disk d t p x tb m ps
            (record {
              table = r.usable.table;
              map = r.usable.map;
              held = r.usable.held;
              small = r.usable.small;
              held_twice = r.usable.held_twice;
            })
            (rw (==_self p) refl) refl
            (IsLru-allocate l.db.store d.store p x ps free refl refl refl r.lru)
            (rw (==_self p) refl) e.block (ap (λ y. y.block) same)
            (subst (λ y. IsPresent disk l.db.blocks.blocks_exist tb.hash y e.block) (sym same)
              present) in
        (
          k.0,
          load-run disk t (scanned e) l tb (block_of e.block, k.0) r.usable.table r.usable.held k.1,
          k.2,
        )

    abbrev tb1 : Table v
    tb1 = table_after d t p x tb m

    abbrev m1 : v.kh.Map
    m1 = v.kh.put m (saved_hash v e) p

    grown : (2 ≤ tb1.refs) × (tb1.refs + 1 < 2 ^ 15)
    grown = elim (Bool-cases (v.kh.size m == 0)) [
      | inl z ↦
          let few : tb.refs + 2 < 2 ^ 15 = r.roomy (ground (arith, z)) in
          rw z (omega (arith, r.usable.held), omega (arith, few))
      | inr z ↦ rw z (ground (arith, z, r.usable.held_twice), r.usable.small)
    ]

    -- Memory but for the new entry is as it was.
    beside :
        (d' : Db v)
        → Kept d d' t p x tb m ps
        → (q : Ptr) → p ≢ q
        → Option.map data_of (d'.store.entries q) ≡ Option.map data_of (l.db.store.entries q)
    beside d' k q n = k.others q (λ h. n (sym h)) ∙ ap (Option.map data_of) (rw (==_ne p q n) refl)

    later : (n : ℕ) → l.mallocs + 1 ≤ n → p ≢ disk.fresh n
    later n h q = omega (arith, apart l.mallocs n q, h)

    IsReady-next :
        (d' : Db v) → Kept d d' t p x tb m ps → IsReady disk (next d') t tb1 m1 (ps ++ p ∷ [])
    IsReady-next d' k = record {
      usable = record {
        table = k.table;
        map = refl;
        held = omega (arith, grown.0);
        small = grown.1;
        held_twice = inr grown.0;
      };
      roomy = λ z. absurd (omega (arith, z, im.size-put_new m (saved_hash v e) p new));
      lru = k.lru;
      table = r.table;
      unused = λ n h. none_of _ (
          beside d' k (disk.fresh n) (later n h)
          ∙ ap (Option.map data_of) (r.unused n (omega (arith, h))));
    }

    hash-next : (g : ℕ) → g ≢ saved_hash v e → find v.kh m1 g ≡ find v.kh m g
    hash-next g n = im.find-put_other m (saved_hash v e) p g n

    AllNew-next :
        (es : List Entry)
        → AllNew v m es
        → mem (saved_hash v e) (hashes v es) ≡ false
        → AllNew v m1 es
    AllNew-next [] a n = tt
    AllNew-next (y ∷ es) a n =
        let ne : saved_hash v y ≢ saved_hash v e = λ q. ground (arith, n, q) in
        (hash-next (saved_hash v y) ne ∙ a.0, AllNew-next es a.1 (ground (arith, n)))

    -- The entry stays where it is while the others are loaded.
    IsHeld-first :
        (d' : Db v) (l2 : Loading v) (tb2 : Table v) (m2 : v.kh.Map) (es : List Entry)
        → Kept d d' t p x tb m ps
        → Loaded disk (next d') l2 t tb1 tb2 m1 m2 (ps ++ p ∷ []) es
        → mem (saved_hash v e) (hashes v es) ≡ false
        → IsHeld l2.db m2 t p e
    IsHeld-first d' l2 tb2 m2 es k w n = (
      w.others p (λ j h q. later j h (sym q))
          ∙ k.content
          ∙ ap (λ y. some (data_of (referred y))) same,
      w.kept_hashes (saved_hash v e) n ∙ im.find-put_same m (saved_hash v e) p,
    )

    with-first :
        (d' : Db v) (l2 : Loading v) (tb2 : Table v) (m2 : v.kh.Map) (es : List Entry)
        → Kept d d' t p x tb m ps
        → Loaded disk (next d') l2 t tb1 tb2 m1 m2 (ps ++ p ∷ []) es
        → mem (saved_hash v e) (hashes v es) ≡ false
        → Loaded disk l l2 t tb tb2 m m2 ps (e ∷ es)
    with-first d' l2 tb2 m2 es k w n = record {
      ready =
          subst (IsReady disk l2 t tb2 m2)
            (append_assoc ps (p ∷ []) (addresses disk (l.mallocs + 1) es)) w.ready;
      held = (IsHeld-first d' l2 tb2 m2 es k w n, w.held);
      blocks = w.blocks ∙ k.blocks;
      tables = w.tables ∙ k.tables;
      marked = w.marked;
      name = w.name;
      others = λ q h.
          w.others q (λ j i. h j (omega (arith, i))) ∙ beside d' k q (h l.mallocs (omega arith));
      kept_hashes =
          λ g i. w.kept_hashes g (ground (arith, i)) ∙ hash-next g (λ q. ground (arith, i, q));
    }

  -- The rows of entries that a table does not have yet, loaded one after the other.
  pub load_entries_lem :
      (es : List Entry) (l : Loading v) (tb : Table v) (m : v.kh.Map) (ps : List Ptr)
      → IsReady disk l t tb m ps
      → AllPresent v disk t l.db.blocks.blocks_exist tb.hash es
      → AllNew v m es
      → Distinct (hashes v es)
      → (l' : Loading v) × (tb' : Table v) × (m' : v.kh.Map) × (load_items disk
            (map entry_item es)
            l
          ≡ some l')
        × Loaded disk l l' t tb tb' m m' ps es
  unfolding load_items
  load_entries_lem [] l tb m ps r a n u = (
    l,
    tb,
    m,
    refl,
    record {
      ready = subst (IsReady disk l t tb m) (sym (append-nil ps)) r;
      held = tt;
      blocks = refl;
      tables = refl;
      marked = refl;
      name = (refl, refl, refl);
      others = λ q h. refl;
      kept_hashes = λ g h. refl;
    },
  )
  load_entries_lem (e ∷ es) l tb m ps r a n u =
      let (d', run, k) = step l tb m ps e r a.0.0 a.0.1 n.0 in
      let l1 = next l tb m ps e r a.0.0 a.0.1 n.0 d' in
      let (l2, tb2, m2, rest, w) =
        load_entries_lem es l1 _ _ (ps ++ disk.fresh l.mallocs ∷ [])
          (IsReady-next l tb m ps e r a.0.0 a.0.1 n.0 d' k)
          (subst (λ b. AllPresent v disk t b tb.hash es) (sym (ap (λ b. b.blocks_exist) k.blocks))
            a.1)
          (AllNew-next l tb m ps e r a.0.0 a.0.1 n.0 es n.1 u.0) u.1 in
      (
        l2,
        tb2,
        m2,
        items-run disk t e (map entry_item es) l l1 l2 r.table run rest,
        with-first l tb m ps e r a.0.0 a.0.1 n.0 d' l2 tb2 m2 es k w u.0,
      )
