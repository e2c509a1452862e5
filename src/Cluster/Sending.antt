-- ===== src/Cluster/Sending.antt =====
-- cluster_query.go: the goroutine of `queryCluster` for a partition, and what it sends.
pub mod Flat
use zenodb.Prelude.{
  ℕ, zero, suc, Bool, true, false, ◌||◌, Option, none, some, List, [], ◌∷◌, ◌++◌, if◌then◌else◌,
}
use zenodb.Prelude.Int.{ℤ, pos}
use zenodb.Core.{is_some}
use zenodb.Cluster.Mapper.{Fields, Vals}
use zenodb.Cluster.Query.{RemoteResult}

-- A call that a query handler makes of its callbacks: for a row, with what `finalErr` and `stopped` say
-- at that time.
pub data Call (E Row : Type 0) : Type 0 where
  on_fields : Fields → Call E Row
  on_row : Option E → Bool → Option (List ℕ) → Vals → Call E Row
  on_flat_row : Option E → Bool → Row → Call E Row

-- What a handler does with the query: its calls, the high-water mark of its statistics, if it returns
-- some, and its error, with whether that is Retriable.
pub record Attempt (E Row : Type 0) : Type 0 where
  pub calls : List (Call E Row)
  pub highest_high_water_mark : Option ℤ
  pub err : Option (E × Bool)

abbrev pub mark_of : Option ℤ → ℤ
mark_of none = pos 0
mark_of (some mark) = mark

module _ {E Row : Type 0} (p : ℕ) where
  -- What the callbacks send to `results`.
  pub sent_by : List (Call E Row) → List (RemoteResult E Row)
  sent_by [] = []
  sent_by (on_fields fields ∷ calls) =
      record {
        partition = p;
        fields = some fields;
        key = none;
        vals = [];
        flat_row = none;
        high_water_mark = pos 0;
        err = none;
      }
      ∷ sent_by calls
  sent_by (on_row final_err stopped key vals ∷ calls) =
      let rest = sent_by calls in
      if is_some final_err || stopped
      then rest
      else record {
        partition = p;
        fields = none;
        key = key;
        vals = vals;
        flat_row = none;
        high_water_mark = pos 0;
        err = none;
      }
        ∷ rest
  sent_by (on_flat_row final_err stopped row ∷ calls) =
      let rest = sent_by calls in
      if is_some final_err || stopped
      then rest
      else record {
        partition = p;
        fields = none;
        key = none;
        vals = [];
        flat_row = some row;
        high_water_mark = pos 0;
        err = none;
      }
        ∷ rest

  -- The last result of a partition.
  unfoldable pub final_result : ℤ → Option E → RemoteResult E Row
  final_result mark err = record {
    partition = p;
    fields = none;
    key = none;
    vals = [];
    flat_row = none;
    high_water_mark = mark;
    err = err;
  }

  -- After an attempt: what the next handlers send, or the last result.
  pub after_attempt : ℤ → Option (E × Bool) → List (RemoteResult E Row) → List (RemoteResult E Row)
  unfolding final_result
  after_attempt mark none retried = final_result mark none ∷ []
  after_attempt mark (some (e, true)) retried = retried
  after_attempt mark (some (e, false)) retried = final_result mark (some e) ∷ []

  -- The goroutine, on the handlers that `remoteQueryHandlerForPartition` finds one after the other;
  -- `missing_handler` is ErrMissingQueryHandler.
  unfoldable pub sent : E → List (Attempt E Row) → List (RemoteResult E Row)
  unfolding sent_by final_result after_attempt
  sent missing_handler [] = final_result (pos 0) (some missing_handler) ∷ []
  sent missing_handler (a ∷ attempts) =
      sent_by a.calls
      ++ after_attempt (mark_of a.highest_high_water_mark) a.err (sent missing_handler attempts)
