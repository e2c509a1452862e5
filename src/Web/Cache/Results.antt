-- ===== src/Web/Cache/Results.antt =====
-- web/cache.go: a query is run once until its entry expires, and what it gives is found again.
use zenodb.Prelude.{
  ℕ, ◌+◌, ◌≤◌, ◌≡◌, refl, ap, sym, ◌∙◌, true, false, none, some, List, [], ◌∷◌, ◌++◌, arith, leb,
  ltb, length, drop, replicate, list_eq_refl, length-append, take-append_past, drop-append_past,
  drop-drop, Yields, Yields-map, ◌⊎◌, inl, inr,
}
use zenodb.Encoding.Time.{Time, header, length-header, encode_time-header, time_from_bytes-header}
use zenodb.Sequence.Header.{IsStorable}
use zenodb.Sequence.Values.{copy_to_lem}
use zenodb.Web.Cache.{
  Bolt, Entry, slice, new_cache_entry, permalink_bytes, status, data_of, expires, expired, update,
  succeed, Cache, begin, get_or_begin, get_by_permalink, put,
}

append-nil : (xs : List ℕ) → xs ++ [] ≡ xs
append-nil [] = refl
append-nil (x ∷ xs) = ap (λ l. x ∷ l) (append-nil xs)

-- An entry by its parts.
pub entry_of : ℕ → List ℕ → Time → List ℕ → Entry
entry_of s permalink t content = s ∷ (permalink ++ (header t ++ content))

module _ (permalink : List ℕ) (l : length permalink ≡ 16) where
  drop_17 :
      (s : ℕ) (t : Time) (content : List ℕ)
      → drop 17 (entry_of s permalink t content) ≡ header t ++ content
  unfolding entry_of
  drop_17 s t content = drop-append_past 16 0 permalink (header t ++ content) (sym l)

  long :
      (s : ℕ) (t : Time) (content : List ℕ)
      → length (entry_of s permalink t content) ≡ 25 + length content
  unfolding entry_of
  long s t content = omega (
    arith,
    length-append permalink (header t ++ content),
    length-append (header t) content,
    length-header t,
    l,
  )

  pub expired-entry_of :
      (s : ℕ) (t now : Time) (content : List ℕ)
      → IsStorable t
      → expired now (entry_of s permalink t content) ≡ some (ltb t now)
  unfolding expired expires
  expired-entry_of s t now content h =
      rw (drop_17 s t content, time_from_bytes-header t content h) refl

  pub permalink_bytes-entry_of :
      (s : ℕ) (t : Time) (content : List ℕ)
      → permalink_bytes (entry_of s permalink t content) ≡ some permalink
  unfolding permalink_bytes slice entry_of
  permalink_bytes-entry_of s t content =
      let f : leb 17 (length (entry_of s permalink t content)) ≡ true =
        ground (arith, long s t content) in
      rw f (
        ap some
          (take-append_past 16 0 permalink (header t ++ content) (sym l) ∙ append-nil permalink))

  time_bytes :
      (s : ℕ) (t : Time) (content : List ℕ)
      → slice 17 25 (entry_of s permalink t content) ≡ some (header t)
  unfolding slice
  time_bytes s t content =
      let f : leb 25 (length (entry_of s permalink t content)) ≡ true =
        ground (arith, long s t content) in
      rw (f, drop_17 s t content)
        (ap some
          (take-append_past 8 0 (header t) content (sym (length-header t)) ∙ append-nil (header t)))

  -- `update` leaves the permalink and the time.
  update-entry_of :
      (s s' : ℕ) (t : Time) (content content' : List ℕ)
      → update s' content' (entry_of s permalink t content)
        ≡ some (entry_of s' permalink t content')
  unfolding update permalink_bytes entry_of
  update-entry_of s s' t content content' =
      rw (permalink_bytes-entry_of s t content, time_bytes s t content) refl

  new_cache_entry_lem :
      (now : Time) (ttl : ℕ)
      → new_cache_entry permalink now ttl ≡ some (entry_of 0 permalink (now + ttl) [])
  unfolding new_cache_entry entry_of
  new_cache_entry_lem now ttl =
      let zeros : List ℕ = replicate 8 0 in
      rw (copy_to_lem (replicate 25 0) 1 permalink (omega (arith, l)), l)
        (rw
          (
            drop-append_past 16 0 permalink zeros (sym l),
            encode_time-header zeros (now + ttl) (omega arith),
            take-append_past 16 0 permalink zeros (sym l),
            append-nil permalink,
          )
          refl)

  status-entry_of :
      (s : ℕ) (t : Time) (content : List ℕ) → status (entry_of s permalink t content) ≡ some s
  unfolding status entry_of
  status-entry_of s t content = refl

  data_of-entry_of :
      (s : ℕ) (t : Time) (content : List ℕ)
      → data_of (entry_of s permalink t content) ≡ some content
  unfolding data_of
  data_of-entry_of s t content =
      let f : leb 25 (length (entry_of s permalink t content)) ≡ true =
        ground (arith, long s t content) in
      let e : drop 8 (drop 17 (entry_of s permalink t content)) ≡ content =
        rw (drop_17 s t content)
          (drop-append_past 8 0 (header t) content (sym (length-header t))) in
      rw f (ap some (sym (drop-drop 17 8 (entry_of s permalink t content)) ∙ e))

module _ (bolt : Bolt) where
  -- Both buckets take an entry of the query with the permalink.
  abbrev pub AreAccepted : List ℕ → List ℕ → Entry → Type 0
  AreAccepted sql permalink ce = (bolt.accepts sql ce ≡ true) × (bolt.accepts permalink ce ≡ true)

  get-put_same :
      (k v : List ℕ) (b : bolt.Bucket)
      → bolt.accepts k v ≡ true
      → bolt.get k (bolt.put k v b) ≡ some v
  get-put_same k v b h = rw (bolt.get-put k v b k, h, list_eq_refl k) refl

  -- The cache has an entry of a query, which expires at t, under the query and under its permalink.
  pub Has : List ℕ → List ℕ → ℕ → Time → List ℕ → Cache bolt → Type 0
  Has sql permalink s t content c =
      (bolt.get sql c.results ≡ some (entry_of s permalink t content))
      × (get_by_permalink bolt permalink c ≡ some (entry_of s permalink t content))

  module _ (sql permalink : List ℕ) (l : length permalink ≡ 16) where
    -- A query that is begun has a pending entry from then on, until now + ttl.
    begin-Has :
        (now : Time) (c : Cache bolt)
        → AreAccepted sql permalink (entry_of 0 permalink (now + c.ttl) [])
        → Yields (begin bolt permalink now sql c) (λ b.
          (b.created ≡ true)
          × (b.entry ≡ entry_of 0 permalink (now + c.ttl) [])
          × Has sql permalink 0 (now + c.ttl) [] b.cache)
    unfolding begin Has get_by_permalink
    begin-Has now c (h, k) =
        let ce = entry_of 0 permalink (now + c.ttl) [] in
        rw
          (
            new_cache_entry_lem permalink l now c.ttl,
            permalink_bytes-entry_of permalink l 0 (now + c.ttl) [],
          )
          (refl, refl, (get-put_same sql ce c.results h, get-put_same permalink ce c.permalinks k))

    -- While it is not expired, the query is not begun again.
    get_or_begin-Has :
        (s : ℕ) (t now : Time) (content new : List ℕ) (c : Cache bolt)
        → IsStorable t
        → now ≤ t
        → Has sql permalink s t content c
        → get_or_begin bolt new now sql c
          ≡ some (record { entry = entry_of s permalink t content; created = false; cache = c })
    unfolding get_or_begin Has
    get_or_begin-Has s t now content new c i h (g, p) =
        let f : ltb t now ≡ false = ground (arith, h) in
        rw (get_or_begin, g, expired-entry_of permalink l s t now content i, f) refl

    -- A result that is put before the entry expires is there under the query and under the permalink.
    put-Has :
        (s : ℕ) (t now : Time) (content : List ℕ) (c : Cache bolt)
        → IsStorable t
        → now ≤ t
        → AreAccepted sql permalink (entry_of s permalink t content)
        → Yields
            (put bolt now sql (entry_of s permalink t content) c)
            (λ r. (r.0 ≡ true) × Has sql permalink s t content r.1)
    unfolding put Has get_by_permalink
    put-Has s t now content c i h (a, b) =
        let f : ltb t now ≡ false = ground (arith, h) in
        let ce = entry_of s permalink t content in
        rw
          (
            permalink_bytes-entry_of permalink l s t content,
            expired-entry_of permalink l s t now content i,
            f,
          )
          (refl, (get-put_same sql ce c.results a, get-put_same permalink ce c.permalinks b))

    -- The cache has no entry of the query, or one that is expired.
    unfoldable pub IsMissing : Time → Cache bolt → Type 0
    IsMissing now c =
        (bolt.get sql c.results ≡ none)
        ⊎ ((ce : Entry) × (bolt.get sql c.results ≡ some ce) × (expired now ce ≡ some true))

    get_or_begin-IsMissing :
        (now : Time) (c : Cache bolt)
        → IsMissing now c
        → AreAccepted sql permalink (entry_of 0 permalink (now + c.ttl) [])
        → Yields (get_or_begin bolt permalink now sql c) (λ b.
          (b.created ≡ true)
          × (b.entry ≡ entry_of 0 permalink (now + c.ttl) [])
          × Has sql permalink 0 (now + c.ttl) [] b.cache)
    unfolding get_or_begin IsMissing
    get_or_begin-IsMissing now c (inl n) a = rw (get_or_begin, n) (begin-Has now c a)
    get_or_begin-IsMissing now c (inr (ce, g, e)) a =
        rw (get_or_begin, g, e) (begin-Has now (record c { results = bolt.delete sql c.results }) a)

    -- When the cache has no entry of a query, or an expired one, `getOrBegin` begins it; until that
    -- entry expires, `getOrBegin` begins it no more, and gives the same entry. The permalink has 16
    -- bytes, the buckets accept the entry under the query and under the permalink, and the time at
    -- which it expires fits into eight bytes.
    pub get_or_begin-again :
        (now later : Time) (new : List ℕ) (c : Cache bolt)
        → IsMissing now c
        → AreAccepted sql permalink (entry_of 0 permalink (now + c.ttl) [])
        → IsStorable (now + c.ttl)
        → later ≤ now + c.ttl
        → Yields (get_or_begin bolt permalink now sql c) (λ b.
          (b.created ≡ true)
          × (get_or_begin bolt new later sql b.cache
              ≡ some (record { entry = b.entry; created = false; cache = b.cache })))
    get_or_begin-again now later new c m a i h =
        Yields-map (get_or_begin bolt permalink now sql c) _ _ (get_or_begin-IsMissing now c m a)
          (λ b (n, e, g). (n, rw e (get_or_begin-Has 0 (now + c.ttl) later [] new b.cache i h g)))

    -- When a query that `getOrBegin` has begun, as there was no entry of it or an expired one,
    -- succeeds, and its result is put before the entry expires, the result is found by the permalink
    -- at any time, and by `getOrBegin` until then, as a success with its data. The permalink has 16
    -- bytes, the buckets accept the entries under the query and under the permalink, and the time at
    -- which they expire fits into eight bytes.
    pub succeed_lem :
        (now finished later : Time) (content new : List ℕ) (c : Cache bolt)
        → IsMissing now c
        → AreAccepted sql permalink (entry_of 0 permalink (now + c.ttl) [])
        → AreAccepted sql permalink (entry_of 1 permalink (now + c.ttl) content)
        → IsStorable (now + c.ttl)
        → finished ≤ now + c.ttl
        → later ≤ now + c.ttl
        → Yields (get_or_begin bolt permalink now sql c) (λ b.
          Yields (succeed content b.entry) (λ done.
            Yields (put bolt finished sql done b.cache) (λ r.
              (r.0 ≡ true)
              × (get_by_permalink bolt permalink r.1 ≡ some done)
              × (get_or_begin bolt new later sql r.1
                  ≡ some (record { entry = done; created = false; cache = r.1 }))
              × (status done ≡ some 1)
              × (data_of done ≡ some content))))
    unfolding succeed Has
    succeed_lem now finished later content new c m a a' i h k =
        let t = now + c.ttl in
        Yields-map (get_or_begin bolt permalink now sql c) _ _ (get_or_begin-IsMissing now c m a)
          (λ b (n, e, g).
            rw (e, update-entry_of permalink l 0 1 t [] content)
              (Yields-map (put bolt finished sql (entry_of 1 permalink t content) b.cache) _ _
                (put-Has 1 t finished content b.cache i h a')
                (λ r (o, p). (
                  o,
                  p.1,
                  get_or_begin-Has 1 t later content new r.1 i k p,
                  status-entry_of permalink l 1 t content,
                  data_of-entry_of permalink l 1 t content,
                ))))
