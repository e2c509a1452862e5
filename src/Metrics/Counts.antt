-- ===== src/Metrics/Counts.antt =====
-- metrics/metrics.go: the numbers of followers by partition are those of the followers that are listed.
use zenodb.Prelude.{
  ℕ, suc, ◌+◌, ◌≡◌, refl, ap, ◌∙◌, true, Option, none, some, List, [], ◌∷◌, arith, ◌==◌,
  if◌then◌else◌, Option-cases, inl, inr, Yields, Yields-bind, ◌>>=◌,
}
use zenodb.Prelude.Int.{pos, ◌+ℤ◌, ◌-ℤ◌}
use zenodb.Prelude.Assoc.{Assoc, int_key, get, put, delete, get-delete, get-put}
use zenodb.Metrics.{
  FollowerId, FollowerStats, PartitionStats, Metrics, follower_key, reset, get_follower_stats,
  follower_joined, num_of, leave, is_zero, follower_failed, queued_for_follower, set_num_partitions,
  currently_reading,
}
use zenodb.Metrics.Entries.{
  connected, IsDistinct, put-IsDistinct, delete-IsDistinct, connected-put, connected-delete,
}

-- What a process of the leader does to the metrics, where a follower joins only while it is not listed.
pub data Reachable : Metrics → Type 0 where
  started : Reachable reset
  configured : (n : ℕ) (m : Metrics) → Reachable m → Reachable (set_num_partitions n m)
  reading : (time : List ℕ) (m : Metrics) → Reachable m → Reachable (currently_reading time m)
  joined :
      (id : FollowerId) (m : Metrics)
      → Reachable m
      → get id m.followers ≡ none
      → Reachable (follower_joined id m)
  left :
      (id : FollowerId) (m m' : Metrics)
      → Reachable m
      → follower_failed id m ≡ some m'
      → Reachable m'
  queued :
      (id : FollowerId) (n : ℕ) (m : Metrics) → Reachable m → Reachable (queued_for_follower id n m)

-- The stats of a partition with n followers: none if it has none.
pub stats_of : ℕ → ℕ → Option PartitionStats
stats_of p n = if n == 0 then none else some (record { partition = p; num_followers = pos n })

-- Each follower stands under its own id, once, and each partition with its number of followers.
pub record IsConsistent (m : Metrics) : Type 0 where
  pub distinct : IsDistinct m.followers
  pub own :
      (id : FollowerId) (fs : FollowerStats) → get id m.followers ≡ some fs → fs.follower_id ≡ id
  pub counts : (p : ℕ) → get p m.partitions ≡ stats_of p (connected p m.followers)

open follower_key use {same, same_iff}

-- A new entry in place of one that was there, or not.
own-put :
    (es : Assoc FollowerId FollowerStats) (id : FollowerId) (new : FollowerStats)
    → new.follower_id ≡ id
    → ((i : FollowerId) (fs : FollowerStats) → get i es ≡ some fs → fs.follower_id ≡ i)
    → (i : FollowerId) (fs : FollowerStats) → get i (put id new es) ≡ some fs
    → fs.follower_id ≡ i
own-put es id new n h i fs e = ground (arith, get-put id new es i, same_iff id i, h i fs, n, e)

own-delete :
    (es : Assoc FollowerId FollowerStats) (id : FollowerId)
    → ((i : FollowerId) (fs : FollowerStats) → get i es ≡ some fs → fs.follower_id ≡ i)
    → (i : FollowerId) (fs : FollowerStats) → get i (delete id es) ≡ some fs
    → fs.follower_id ≡ i
own-delete es id h i fs e = ground (arith, get-delete id es i, h i fs, e)

reset-IsConsistent : IsConsistent reset
unfolding reset get connected IsDistinct stats_of
reset-IsConsistent = record {
  distinct = tt;
  own = λ id fs e. absurd (ground (arith, e));
  counts = λ p. refl;
}

num_of-stats_of : (p n : ℕ) → num_of (stats_of p n) +ℤ pos 1 ≡ pos (n + 1)
unfolding num_of stats_of ◌+ℤ◌
num_of-stats_of p n = ground arith

joined-IsConsistent :
    (id : FollowerId) (m : Metrics)
    → IsConsistent m
    → get id m.followers ≡ none
    → IsConsistent (follower_joined id m)
unfolding follower_joined get_follower_stats stats_of
joined-IsConsistent id m c e =
    let new : FollowerStats = record { follower_id = id; queued = 0 } in
    rw (follower_joined, get_follower_stats, e)
      (record {
        distinct = put-IsDistinct id new m.followers c.distinct;
        own = own-put m.followers id new refl c.own;
        counts = λ p. count p new;
      })
  where
    count :
        (p : ℕ) (new : FollowerStats)
        → get p (
            put id.partition
              (record {
                partition = id.partition;
                num_followers = num_of (get id.partition m.partitions) +ℤ pos 1;
              })
              m.partitions)
          ≡ stats_of p (connected p (put id new m.followers))
    count p new =
        rw
          (c.counts id.partition, num_of-stats_of id.partition (connected id.partition m.followers))
          (ground (
            arith,
            get-put {V = PartitionStats} id.partition
                (record {
                  partition = id.partition;
                  num_followers = pos (connected id.partition m.followers + 1);
                })
                m.partitions p,
            connected-put p id new m.followers,
            e,
            c.counts p,
          ))

minus_one : (n : ℕ) → pos (suc n) -ℤ pos 1 ≡ pos n
unfolding ◌-ℤ◌
minus_one n = ground arith

after_leave :
    (p n : ℕ) (partitions : Assoc ℕ PartitionStats) (q : ℕ)
    → get q (
        if is_zero (pos n)
        then delete p partitions
        else put p (record { partition = p; num_followers = pos n }) partitions)
      ≡ (if p == q then stats_of q n else get q partitions)
unfolding is_zero stats_of
after_leave p n partitions q = ground (
  arith,
  get-delete {V = PartitionStats} p partitions q,
  get-put {V = PartitionStats} p (record { partition = p; num_followers = pos n }) partitions q,
)

leave-stats_of :
    (p n : ℕ) (partitions : Assoc ℕ PartitionStats)
    → get p partitions ≡ some (record { partition = p; num_followers = pos (suc n) })
    → Yields
        (leave p partitions)
        (λ after. (q : ℕ) → get q after ≡ (if p == q then stats_of q n else get q partitions))
unfolding leave
leave-stats_of p n partitions e = rw (leave, e, minus_one n) (λ q. after_leave p n partitions q)

stats_of-suc :
    (p n k : ℕ)
    → 1 + n ≡ k
    → stats_of p k ≡ some (record { partition = p; num_followers = pos (suc n) })
unfolding stats_of
stats_of-suc p n k h = ground (arith, h)

-- The metrics are consistent, and do not list the follower.
abbrev pub HasLeft : FollowerId → Metrics → Type 0
HasLeft id m = IsConsistent m × (get id m.followers ≡ none)

-- What is left when a follower that is listed has gone.
leaving : FollowerId → Metrics → Assoc ℕ PartitionStats → Metrics
leaving id m partitions = record m { followers = delete id m.followers; partitions = partitions }

follower_failed-listed :
    (id : FollowerId) (m : Metrics) (fs : FollowerStats)
    → get id m.followers ≡ some fs
    → fs.follower_id ≡ id
    → follower_failed id m ≡ (leave id.partition m.partitions >>= λ ps. some (leaving id m ps))
unfolding leaving follower_failed
follower_failed-listed id m fs e o =
    let k : follower_failed id m
        ≡ (leave fs.follower_id.partition m.partitions >>= λ ps. some (leaving id m ps)) =
      rw (follower_failed, e) refl in
    k ∙ ap (λ i. leave i.partition m.partitions >>= λ ps. some (leaving id m ps)) o

leaving-IsConsistent :
    (id : FollowerId) (m : Metrics) (fs : FollowerStats)
    → IsConsistent m
    → get id m.followers ≡ some fs
    → Yields (leave id.partition m.partitions >>= λ ps. some (leaving id m ps)) (HasLeft id)
unfolding leaving follower_failed
leaving-IsConsistent id m fs c e =
    let p = id.partition in
    let n = connected p (delete id m.followers) in
    let k : 1 + n ≡ connected p m.followers =
      ground (arith, connected-delete p id m.followers c.distinct, e) in
    Yields-bind (leave p m.partitions) (λ ps. some (leaving id m ps)) _ (HasLeft id)
      (leave-stats_of p n m.partitions (c.counts p ∙ stats_of-suc p n (connected p m.followers) k))
      (λ after a. (
        record {
          distinct = delete-IsDistinct id m.followers c.distinct;
          own = own-delete m.followers id c.own;
          counts = λ q.
              a q ∙ ground (arith, connected-delete q id m.followers c.distinct, e, c.counts q);
        },
        ground (arith, get-delete id m.followers id, same_iff id id),
      ))

left-IsConsistent :
    (id : FollowerId) (m : Metrics) → IsConsistent m → Yields (follower_failed id m) (HasLeft id)
unfolding follower_failed
left-IsConsistent id m c = elim (Option-cases (get id m.followers)) [
  | inl e ↦ rw (follower_failed, e) (c, e)
  | inr (fs, e) ↦
      rw (follower_failed-listed id m fs e (c.own id fs e)) (leaving-IsConsistent id m fs c e)
]

queued-IsConsistent :
    (id : FollowerId) (n : ℕ) (m : Metrics)
    → IsConsistent m
    → IsConsistent (queued_for_follower id n m)
unfolding queued_for_follower
queued-IsConsistent id n m c = elim (Option-cases (get id m.followers)) [
  | inl e ↦ rw (queued_for_follower, e) c
  | inr (fs, e) ↦
      let new : FollowerStats = record fs { queued = n } in
      rw (queued_for_follower, e)
        (record {
          distinct = put-IsDistinct id new m.followers c.distinct;
          own = own-put m.followers id new (c.own id fs e) c.own;
          counts = λ p.
              c.counts p ∙ ap (stats_of p) (ground (arith, connected-put p id new m.followers, e));
        })
]

configured-IsConsistent :
    (n : ℕ) (m : Metrics) → IsConsistent m → IsConsistent (set_num_partitions n m)
unfolding set_num_partitions
configured-IsConsistent n m c = record { distinct = c.distinct; own = c.own; counts = c.counts }

reading-IsConsistent :
    (time : List ℕ) (m : Metrics) → IsConsistent m → IsConsistent (currently_reading time m)
unfolding currently_reading
reading-IsConsistent time m c = record { distinct = c.distinct; own = c.own; counts = c.counts }

-- As long as a follower joins only while it is not listed: each follower is listed under its own id,
-- once, and each partition is listed with the number of its followers that are, and not at all if
-- there are none.
pub reachable_lem : {m : Metrics} → Reachable m → IsConsistent m
reachable_lem started = reset-IsConsistent
reachable_lem (configured n m r) = configured-IsConsistent n m (reachable_lem r)
reachable_lem (reading time m r) = reading-IsConsistent time m (reachable_lem r)
reachable_lem (joined id m r e) = joined-IsConsistent id m (reachable_lem r) e
reachable_lem (left id m m' r e) = (rw e at (left-IsConsistent id m (reachable_lem r))).0
reachable_lem (queued id n m r) = queued-IsConsistent id n m (reachable_lem r)

-- In metrics that come about while a follower joins only when it is not listed, `FollowerFailed`
-- does not panic, leaves the follower unlisted and each partition with its number of followers.
pub follower_failed_lem :
    (id : FollowerId) (m : Metrics) → Reachable m → Yields (follower_failed id m) (HasLeft id)
follower_failed_lem id m r = left-IsConsistent id m (reachable_lem r)

-- One follower, and the number of followers of its partition.
alone : FollowerId → ℕ → Metrics
alone id n = record {
  leader = reset.leader;
  followers = (id, record { follower_id = id; queued = 0 }) ∷ [];
  partitions = (id.partition, record { partition = id.partition; num_followers = pos n }) ∷ [];
}

joined_alone : (id : FollowerId) → follower_joined id reset ≡ alone id 1
unfolding follower_joined reset get put get_follower_stats num_of ◌+ℤ◌ alone
joined_alone id = refl

joined_again : (id : FollowerId) → follower_joined id (alone id 1) ≡ alone id 2
unfolding get put num_of ◌+ℤ◌ alone follower_joined get_follower_stats
joined_again id =
    let s : same id id ≡ true = (same_iff id id).1 refl in
    let t : (id.partition == id.partition) ≡ true = ground arith in
    rw (follower_joined, get_follower_stats, s, t) refl

failed_alone :
    (id : FollowerId)
    → follower_failed id (alone id 2) ≡ some (record (alone id 1) { followers = [] })
unfolding get put delete leave is_zero ◌-ℤ◌ alone follower_failed
failed_alone id =
    let s : same id id ≡ true = (same_iff id id).1 refl in
    let t : (id.partition == id.partition) ≡ true = ground arith in
    rw (follower_failed, s) (rw (leave, t) (rw (delete, put, s, t) refl))

-- A follower that joins twice before it fails stays in the number of its partition: none is listed, and the
-- partition has one.
joined_twice :
    (id : FollowerId)
    → Yields (follower_failed id (follower_joined id (follower_joined id reset))) (λ m.
      (m.followers ≡ [])
      × (get id.partition m.partitions
          ≡ some (record { partition = id.partition; num_followers = pos 1 })))
unfolding get alone
joined_twice id =
    let t : (id.partition == id.partition) ≡ true = ground arith in
    rw (joined_alone id, joined_again id, failed_alone id) (refl, rw t refl)
