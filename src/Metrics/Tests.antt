-- ===== src/Metrics/Tests.antt =====
-- metrics: the theorems at concrete followers.
use zenodb.Prelude.{◌≡◌, refl, none}
use zenodb.Prelude.Assoc.{get, put, int_key}
use zenodb.Metrics.{FollowerId, Metrics, follower_key, reset, follower_joined}
use zenodb.Metrics.Counts.{Reachable, started, joined, IsConsistent, reachable_lem}

abbrev first_follower : FollowerId
first_follower = record { partition = 3; number = 1 }

abbrev second_follower : FollowerId
second_follower = record { partition = 3; number = 2 }

abbrev one_joined : Metrics
one_joined = follower_joined first_follower reset

first_absent : get first_follower reset.followers ≡ none
unfolding reset get
first_absent = refl

one-Reachable : Reachable one_joined
one-Reachable = joined first_follower reset started first_absent

second_absent : get second_follower one_joined.followers ≡ none
unfolding get put follower_joined reset follower_key
second_absent = refl

two-Reachable : Reachable (follower_joined second_follower one_joined)
two-Reachable = joined second_follower one_joined one-Reachable second_absent

reachable_lem_example : IsConsistent (follower_joined second_follower one_joined)
reachable_lem_example = reachable_lem two-Reachable
