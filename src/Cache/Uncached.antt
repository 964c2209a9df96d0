-- ===== src/Cache/Uncached.antt =====
-- db/tableCache.h: LRUCache with the capacity 0 that its constructor leaves, which caches nothing.
use tiny_leveldb.Prelude.{
  ℕ, ◌-◌, ◌<◌, ◌≡◌, List, [], ◌∷◌, Option, some, ◌>>=◌, true, false, ◌==◌, if◌then◌else◌, update,
  count, IsShort,
}
use tiny_leveldb.Cache.Lru.{LruCache, lru, in_use, insert, release, new_handle, prune}

-- What a client calls; the first field of `inserts` is what malloc returns.
pub data Call : Type 0 where
  inserts : (e : ℕ) (key : List ℕ) (hash value charge : ℕ) → Call
  releases : (e : ℕ) → Call
  prunes : Call

unfoldable pub run_call : ℕ → Call → LruCache → Option LruCache
unfolding insert release prune
run_call rounds (inserts e key hash value charge) c = do
  (handle, c) ← insert rounds e key hash value charge c
  some c
run_call rounds (releases e) c = release e c
run_call rounds prunes c = prune rounds c

unfoldable pub run_calls : ℕ → List Call → LruCache → Option LruCache
unfolding run_call
run_calls rounds [] c = some c
run_calls rounds (call ∷ calls) c = do c ← run_call rounds call c; run_calls rounds calls c

-- Without each occurrence of a handle.
abbrev pub without : ℕ → List ℕ → List ℕ
without e [] = []
without e (x ∷ xs) = if x == e then without e xs else x ∷ without e xs

-- The handles that the calls leave with the client.
abbrev pub held_after : List Call → List ℕ → List ℕ
held_after [] held = held
held_after (inserts e key hash value charge ∷ calls) held = held_after calls (e ∷ held)
held_after (releases e ∷ calls) held = held_after calls (without e held)
held_after (prunes ∷ calls) held = held_after calls held

-- The handles that the calls release, the last first.
abbrev pub released_by : List Call → List ℕ → List ℕ
released_by [] freed = freed
released_by (inserts e key hash value charge ∷ calls) freed = released_by calls freed
released_by (releases e ∷ calls) freed = released_by calls (e ∷ freed)
released_by (prunes ∷ calls) freed = released_by calls freed

-- A client that releases what it holds; malloc returns memory that is not in use, and the keys are
-- shorter than 2^31 bytes.
abbrev pub Conforms : List Call → List ℕ → Type 0
Conforms [] held = Unit
Conforms (inserts e key hash value charge ∷ calls) held =
    (in_use < e) × (count e held ≡ 0) × IsShort key × Conforms calls (e ∷ held)
Conforms (releases e ∷ calls) held = (0 < count e held) × Conforms calls (without e held)
Conforms (prunes ∷ calls) held = Conforms calls held

-- A handle that is held once and that is in no list.
pub record Single (c : LruCache) (a : ℕ) : Type 0 where
  pub live : c.live a ≡ true
  pub refs : c.refs a ≡ 1
  pub in_cache : c.in_cache a ≡ false
  pub next : c.next a ≡ 0
  pub behind : in_use < a

-- Nothing is cached: both lists are empty, and the handles of the clients stand alone.
pub record Idle (c : LruCache) (held : List ℕ) : Type 0 where
  pub capacity : c.capacity ≡ 0
  pub usage : c.usage ≡ 0
  pub lru : c.next lru ≡ lru
  pub in_use : c.next in_use ≡ in_use
  pub each : (a : ℕ) → 0 < count a held → Single c a

-- The cache with a new handle that is not cached.
abbrev alone : ℕ → List ℕ → ℕ → ℕ → ℕ → LruCache → LruCache
alone e key hash value charge c =
    let c = new_handle e key hash value charge c in record c { next = update c.next e 0 }

-- The cache with a handle freed.
abbrev gone : ℕ → LruCache → LruCache
gone e c = record c {
  refs = update c.refs e (c.refs e - 1);
  live = update c.live e false;
  deleted = e ∷ c.deleted;
}
