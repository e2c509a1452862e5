-- ===== src/Prelude/Assoc.antt =====
-- Go maps: lists of entries, each key once, over keys that can be compared.
use zenodb.Prelude.{
  ℕ, ◌≡◌, ◌↔◌, refl, Bool, true, Option, none, some, List, [], ◌∷◌, arith, if◌then◌else◌, ◌==◌,
  ==_iff,
}

-- The comparison of Go's `==` on the type of a map's keys.
pub record Key {ℓ} (K : Type ℓ) : Type ℓ where
  pub same : K → K → Bool
  pub same_iff : (i j : K) → (same i j ≡ true) ↔ (i ≡ j)

instance abbrev pub int_key : Key ℕ
int_key = record { same = ◌==◌; same_iff = ==_iff }

abbrev pub Assoc {ℓ κ} : Type ℓ → Type κ → Type (ℓ ⊔ κ)
Assoc K V = List (K × V)

module _ {ℓ κ} {K : Type ℓ} {V : Type κ} ⦃key : Key K⦄ where
  open key use {same, same_iff}

  -- `v, found := m[k]`.
  unfoldable pub get : K → Assoc K V → Option V
  get k [] = none
  get k ((i, v) ∷ entries) = if same i k then some v else get k entries

  -- `m[k] = v`: in place, or as a new entry.
  unfoldable pub put : K → V → Assoc K V → Assoc K V
  put k v [] = (k, v) ∷ []
  put k v ((i, w) ∷ entries) =
      let others = put k v entries in if same i k then (i, v) ∷ entries else (i, w) ∷ others

  -- `delete(m, k)`.
  unfoldable pub delete : K → Assoc K V → Assoc K V
  delete k [] = []
  delete k ((i, w) ∷ entries) =
      let others = delete k entries in if same i k then others else (i, w) ∷ others

  pub get-put :
      (k : K) (v : V) (entries : Assoc K V) (i : K)
      → get i (put k v entries) ≡ (if same k i then some v else get i entries)
  unfolding get put
  get-put k v [] i = refl
  get-put k v ((j, w) ∷ entries) i =
      ground (arith, get-put k v entries i, same_iff j k, same_iff j i, same_iff k i)

  pub get-delete :
      (k : K) (entries : Assoc K V) (i : K)
      → get i (delete k entries) ≡ (if same k i then none else get i entries)
  unfolding get delete
  get-delete k [] i = ground arith
  get-delete k ((j, w) ∷ entries) i =
      ground (arith, get-delete k entries i, same_iff j k, same_iff j i, same_iff k i)
