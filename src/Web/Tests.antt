-- ===== src/Web/Tests.antt =====
-- web: the theorems on the cache at a concrete query.
use mathlib.Core.Path.{subst}
use zenodb.Prelude.{
  ℕ, ◌+◌, ◌*◌, ◌≡◌, ◌↔◌, inl, refl, true, false, some, List, [], ◌∷◌, replicate, list_eq,
  list_eq_sound, list_eq_refl, Yields, arith,
}
use zenodb.Prelude.Assoc
use zenodb.Prelude.Assoc.{Key, Assoc, get-put, get-delete}
use zenodb.Encoding.Time.{second, unix_epoch}
use zenodb.Web.Cache.{Bolt, Cache, get_or_begin, get_by_permalink, put, succeed, status, data_of}
use zenodb.Web.Cache.Results.{IsMissing, get_or_begin-again, succeed_lem}

text_same : (i j : List ℕ) → (list_eq i j ≡ true) ↔ (i ≡ j)
text_same i j = (list_eq_sound i j, λ e. subst (λ k. list_eq i k ≡ true) e (list_eq_refl i))

instance abbrev text_key : Key (List ℕ)
text_key = record { same = list_eq; same_iff = text_same }

abbrev buckets : Bolt
buckets = record {
  Bucket = Assoc (List ℕ) (List ℕ);
  get = Assoc.get;
  put = Assoc.put;
  delete = Assoc.delete;
  accepts = λ k v. true;
  get-put = get-put;
  get-delete = get-delete;
}

abbrev empty_cache : Cache buckets
empty_cache = record { results = []; permalinks = []; ttl = 60 * second }

-- "SELECT"
abbrev query : List ℕ
query = b'S' ∷ b'E' ∷ b'L' ∷ b'E' ∷ b'C' ∷ b'T' ∷ []

abbrev link : List ℕ
link = replicate 16 7

empty-IsMissing : IsMissing buckets query link refl unix_epoch empty_cache
unfolding IsMissing Assoc.get
empty-IsMissing = inl refl

get_or_begin-again_example : Yields (get_or_begin buckets link unix_epoch query empty_cache) (λ b.
    (b.created ≡ true)
    × (get_or_begin buckets [] (unix_epoch + 30 * second) query b.cache
        ≡ some (record { entry = b.entry; created = false; cache = b.cache })))
get_or_begin-again_example =
    get_or_begin-again buckets query link refl unix_epoch (unix_epoch + 30 * second) [] empty_cache
      empty-IsMissing (refl, refl) (omega arith) (omega arith)

succeed_lem_example : Yields (get_or_begin buckets link unix_epoch query empty_cache) (λ b.
    Yields (succeed (1 ∷ 2 ∷ []) b.entry) (λ done.
      Yields (put buckets (unix_epoch + second) query done b.cache) (λ r.
        (r.0 ≡ true)
        × (get_by_permalink buckets link r.1 ≡ some done)
        × (get_or_begin buckets [] (unix_epoch + 30 * second) query r.1
            ≡ some (record { entry = done; created = false; cache = r.1 }))
        × (status done ≡ some 1)
        × (data_of done ≡ some (1 ∷ 2 ∷ [])))))
succeed_lem_example =
    succeed_lem buckets query link refl unix_epoch (unix_epoch + second) (unix_epoch + 30 * second)
      (1 ∷ 2 ∷ []) [] empty_cache empty-IsMissing (refl, refl) (refl, refl) (omega arith)
      (omega arith) (omega arith)
