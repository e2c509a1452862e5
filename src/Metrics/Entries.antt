-- ===== src/Metrics/Entries.antt =====
-- metrics/metrics.go: how many entries of the map of followers belong to a partition.
use zenodb.Prelude.{
  ℕ, ◌+◌, ◌≡◌, refl, none, some, [], ◌∷◌, arith, ◌==◌, if◌then◌else◌, Bool-cases, inl, inr,
}
use zenodb.Prelude.Assoc.{Assoc, get, put, delete, get-delete, get-put}
use zenodb.Metrics.{FollowerId, FollowerStats, follower_key}

-- The entries whose keys are in a partition.
unfoldable pub connected : ℕ → Assoc FollowerId FollowerStats → ℕ
connected p [] = 0
connected p ((i, fs) ∷ es) = (if i.partition == p then 1 else 0) + connected p es

-- Each key once, as in a Go map.
unfoldable pub IsDistinct : Assoc FollowerId FollowerStats → Type 0
IsDistinct [] = Unit {0}
IsDistinct ((i, fs) ∷ es) = (get i es ≡ none) × IsDistinct es

open follower_key use {same, same_iff}

pub put-IsDistinct :
    (id : FollowerId) (fs : FollowerStats) (es : Assoc FollowerId FollowerStats)
    → IsDistinct es
    → IsDistinct (put id fs es)
unfolding IsDistinct put get
put-IsDistinct id fs [] d = (refl, tt)
put-IsDistinct id fs ((i, w) ∷ es) d = elim (Bool-cases (same i id)) [
  | inl e ↦ rw e d
  | inr e ↦ rw e (
    ground (arith, get-put id fs es i, d.0, e, same_iff i id, same_iff id i),
    put-IsDistinct id fs es d.1,
  )
]

pub delete-IsDistinct :
    (id : FollowerId) (es : Assoc FollowerId FollowerStats)
    → IsDistinct es
    → IsDistinct (delete id es)
unfolding IsDistinct delete
delete-IsDistinct id [] d = tt
delete-IsDistinct id ((i, w) ∷ es) d = elim (Bool-cases (same i id)) [
  | inl e ↦ rw e (delete-IsDistinct id es d.1)
  | inr e ↦ rw e (ground (arith, get-delete id es i, d.0), delete-IsDistinct id es d.1)
]

-- An entry that is put under a new key is one more in its partition; under an old one it is none more.
pub connected-put :
    (p : ℕ) (id : FollowerId) (fs : FollowerStats) (es : Assoc FollowerId FollowerStats)
    → connected p (put id fs es)
      ≡ (elim (get id es) [ none ↦ if id.partition == p then 1 else 0 | some w ↦ 0 ])
        + connected p es
unfolding connected put get
connected-put p id fs [] = refl
connected-put p id fs ((i, w) ∷ es) = elim (Bool-cases (same i id)) [
  | inl e ↦ rw e (ground arith)
  | inr e ↦ rw e (ground (arith, connected-put p id fs es))
]

absent-delete :
    (id : FollowerId) (es : Assoc FollowerId FollowerStats) → get id es ≡ none → delete id es ≡ es
unfolding get delete
absent-delete id [] h = refl
absent-delete id ((i, w) ∷ es) h = elim (Bool-cases (same i id)) [
  | inl e ↦ absurd (ground (arith, h, e))
  | inr e ↦ rw e (ground (arith, absent-delete id es, h, e))
]

-- An entry that is deleted is one less in its partition.
pub connected-delete :
    (p : ℕ) (id : FollowerId) (es : Assoc FollowerId FollowerStats)
    → IsDistinct es
    → (elim (get id es) [ none ↦ 0 | some w ↦ if id.partition == p then 1 else 0 ])
        + connected p (delete id es)
      ≡ connected p es
unfolding connected delete get IsDistinct
connected-delete p id [] d = refl
connected-delete p id ((i, w) ∷ es) d = elim (Bool-cases (same i id)) [
  | inl e ↦
      let k : i ≡ id = (same_iff i id).0 e in rw e (ground (arith, k, absent-delete id es, d.0))
  | inr e ↦ rw e (ground (arith, connected-delete p id es, d.1))
]
