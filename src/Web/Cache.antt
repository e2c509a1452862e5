-- ===== src/Web/Cache.antt =====
-- web/cache.go: results of queries, by the query and by a permalink. An entry is a byte with its status,
-- sixteen bytes with its permalink, eight bytes with the time at which it expires, and the data.
pub mod Results
use zenodb.Prelude.{
  ℕ, suc, ◌+◌, ◌-◌, ◌≤◌, ◌≡◌, refl, Bool, true, false, Option, none, some, List, [], ◌∷◌, ◌++◌, leb,
  ltb, if◌then◌else◌, length, take, drop, replicate, list_eq, ◌>>=◌,
}
use zenodb.Encoding.Time.{Time, encode_time, time_from_bytes}
use zenodb.Sequence.Values.{copy_to}

-- A bucket of the bolt database: a map from byte strings to byte strings, which refuses some, such as
-- the empty key. `Put` then fails and leaves the bucket, and its error is ignored here.
pub record Bolt : Type 1 where
  pub Bucket : Type 0
  pub get : List ℕ → Bucket → Option (List ℕ)
  pub put : List ℕ → List ℕ → Bucket → Bucket
  pub delete : List ℕ → Bucket → Bucket
  pub accepts : List ℕ → List ℕ → Bool
  pub get-put :
      (k v : List ℕ) (b : Bucket) (i : List ℕ)
      → get i (put k v b)
        ≡ (if accepts k v then (if list_eq k i then some v else get i b) else get i b)
  pub get-delete :
      (k : List ℕ) (b : Bucket) (i : List ℕ)
      → get i (delete k b) ≡ (if list_eq k i then none else get i b)

abbrev pub Entry : Type 0
Entry = List ℕ

-- `ce[from:to]`, which panics where the entry is too short.
pub slice : ℕ → ℕ → Entry → Option (List ℕ)
slice from to ce = if leb to (length ce) then some (take (to - from) (drop from ce)) else none

-- `newCacheEntry`, of a permalink that `uuid.New` makes.
pub new_cache_entry : List ℕ → Time → ℕ → Option Entry
new_cache_entry permalink now ttl = do
  ce ← copy_to (replicate 25 0) 1 permalink
  rest ← encode_time (drop 17 ce) (now + ttl)
  some (take 17 ce ++ rest)

-- `permalinkBytes`, `status`, `data` and `error`.
pub permalink_bytes : Entry → Option (List ℕ)
unfolding slice
permalink_bytes ce = slice 1 17 ce

pub status : Entry → Option ℕ
status [] = none
status (s ∷ ce) = some s

pub data_of : Entry → Option (List ℕ)
data_of ce = if leb 25 (length ce) then some (drop 25 ce) else none

-- `expires` and `expired`.
pub expires : Entry → Option Time
expires ce = time_from_bytes (drop 17 ce)

pub expired : Time → Entry → Option Bool
unfolding expires
expired now ce = do t ← expires ce; some (ltb t now)

-- `pending`, `update`, `succeed` and `fail`, the latter of the bytes of the error.
pub pending : Entry → Option Entry
pending [] = none
pending (s ∷ ce) = some (0 ∷ ce)

pub update : ℕ → List ℕ → Entry → Option Entry
unfolding slice
update s content ce = do p ← slice 1 17 ce; t ← slice 17 25 ce; some ((s ∷ p) ++ (t ++ content))

pub succeed : List ℕ → Entry → Option Entry
unfolding update
succeed content ce = update 1 content ce

pub fail : List ℕ → Entry → Option Entry
unfolding update
fail message ce = update 2 message ce

module _ (bolt : Bolt) where
  open bolt use {Bucket}

  -- `cache`: the two buckets, and how long an entry lasts.
  pub record Cache : Type 0 where
    pub results : Bucket
    pub permalinks : Bucket
    pub ttl : ℕ

  pub record Begun : Type 0 where
    pub entry : Entry
    pub created : Bool
    pub cache : Cache

  -- `begin`: a new entry in both buckets.
  pub begin : List ℕ → Time → List ℕ → Cache → Option Begun
  unfolding new_cache_entry permalink_bytes
  begin permalink now sql c = do
    ce ← new_cache_entry permalink now c.ttl
    p ← permalink_bytes ce
    some (record {
      entry = ce;
      created = true;
      cache = record c {
        results = bolt.put sql ce c.results;
        permalinks = bolt.put p ce c.permalinks;
      };
    })

  -- `getOrBegin`.
  pub get_or_begin : List ℕ → Time → List ℕ → Cache → Option Begun
  unfolding begin expired
  get_or_begin permalink now sql c = elim (bolt.get sql c.results) [
    | none ↦ begin permalink now sql c
    | some ce ↦
        (expired now ce >>= λ e.
        if e
        then begin permalink now sql (record c { results = bolt.delete sql c.results })
        else some (record { entry = ce; created = false; cache = c }))
  ]

  -- `getByPermalink`, of the sixteen bytes.
  pub get_by_permalink : List ℕ → Cache → Option Entry
  get_by_permalink permalink c = bolt.get permalink c.permalinks

  -- `put`, with whether it succeeds: where it does not, the transaction is rolled back.
  pub put : Time → List ℕ → Entry → Cache → Option (Bool × Cache)
  unfolding expired permalink_bytes
  put now sql ce c = do
    p ← permalink_bytes ce
    e ← expired now ce
    if e
        then some (false, c)
        else some (
          true,
          record c { results = bolt.put sql ce c.results; permalinks = bolt.put p ce c.permalinks },
        )
