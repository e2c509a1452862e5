-- ===== src/Expr/Buffer.antt =====
-- expr: `Update` and `Get` of each expression, on the part of a buffer that is its own. A slice that
-- Go would find too short gives `none`.
pub mod Width
pub mod Reads
use zenodb.Prelude.{
  ℕ, suc, ◌+◌, ◌-◌, ◌≡◌, Bool, true, false, ◌&&◌, ◌||◌, Option, none, some, List, [], ◌∷◌, ◌++◌,
  if◌then◌else◌, length, take, drop, ◌>>=◌,
}
use zenodb.Expr.{
  Outside, Expr, Aggregate, constant, field, bounded, aggregate, if_expr, avg, binary, shift,
  unary_math, Params, update_fn, calc, math_fn, test, include,
}
use zenodb.Expr.Cell.{load, saved, load_avg, saved_avg}

-- What `Update` leaves: the bytes that it consumed as they are now, the bytes behind them, the value,
-- and whether it was updated.
pub record Updated (x : Outside) : Type 0 where
  pub written : List ℕ
  pub remain : List ℕ
  pub value : x.Float
  pub updated : Bool

-- What `Get` returns.
pub record Got (x : Outside) : Type 0 where
  pub value : x.Float
  pub was_set : Bool
  pub remain : List ℕ

module _ (x : Outside) where
  open x use {Float, zero_float, add, multiply, divide, equal, Metadata}

  -- `avg.calc`.
  pub mean : Float → Float → Float
  mean count total = if equal count zero_float then zero_float else divide total count

  -- `Get`.
  unfoldable pub get : Expr x → List ℕ → Option (Got x)
  get (constant v) b = some (record { value = v; was_set = true; remain = b })
  get (field name) b = some (record { value = zero_float; was_set = false; remain = b })
  get (bounded e low high) b = do
    g ← get e b
    some (
        if g.was_set && test x low high g.value
        then g
        else record g { value = zero_float; was_set = false })
  get (aggregate a e) b = do
    l ← load x b
    some (record { value = l.0; was_set = l.1; remain = l.2 })
  get (if_expr c e) b = get e b
  get (avg v w) b = do
    l ← load_avg x b
    some (record { value = if l.2 then mean l.0 l.1 else zero_float; was_set = l.2; remain = l.3 })
  get (binary op l r d) b = do
    g ← get l b
    h ← get r g.remain
    some (
        if g.was_set || h.was_set
        then record { value = calc x op g.value h.value; was_set = true; remain = h.remain }
        else record { value = zero_float; was_set = false; remain = h.remain })
  get (shift e offset) b = get e b
  get (unary_math f e) b = do
    g ← get e b
    some (record g { value = if g.was_set then math_fn x f g.value else g.value })

  -- What `aggregate.Update` does once the cell at the front of b is loaded and the wrapped expression
  -- is updated.
  unfoldable pub aggregated : Aggregate → List ℕ → Float → Bool → Updated x → Updated x
  aggregated a b current was_set u =
      let value = if u.updated then update_fn x a was_set current u.value else current in
      record {
        written = (if u.updated then saved x value else take 9 b) ++ u.written;
        remain = u.remain;
        value = value;
        updated = u.updated;
      }

  -- The same of `avg.Update`, after the value and the weight are updated.
  unfoldable pub averaged : List ℕ → Float → Float → Updated x → Updated x → Updated x
  averaged b count total u t =
      let count' = if u.updated then add count t.value else count in
      let total' = if u.updated then add total (multiply u.value t.value) else total in
      record {
        written =
            (if u.updated then saved_avg x count' total' else take 17 b)
            ++ (u.written ++ t.written);
        remain = t.remain;
        value = mean count' total';
        updated = u.updated;
      }

  module _ (params : Params x) (metadata : Option Metadata) where
    -- `Update`.
    pub update : Expr x → List ℕ → Option (Updated x)
    update (constant v) b = some (record { written = []; remain = b; value = v; updated = false })
    update (field name) b =
        let (v, found) = params name in
        some (record { written = []; remain = b; value = v; updated = found })
    update (bounded e low high) b = do
      u ← update e b
      some (if test x low high u.value then u else record u { value = zero_float; updated = false })
    update (aggregate a e) b = do l ← load x b; u ← update e l.2; some (aggregated a b l.0 l.1 u)
    update (if_expr c e) b = do
      let updated = update e b
      let skipped = get e b >>= λ g. some (record {
        written = take (length b - length g.remain) b;
        remain = g.remain;
        value = g.value;
        updated = false;
      })
      if include x c metadata then updated else skipped
    update (avg v w) b = do
      l ← load_avg x b
      u ← update v l.3
      t ← update w u.remain
      some (averaged b l.0 l.1 u t)
    update (binary op l r d) b = do
      u ← update l b
      t ← update r u.remain
      some (record {
        written = u.written ++ t.written;
        remain = t.remain;
        value = calc x op u.value t.value;
        updated = u.updated || t.updated;
      })
    update (shift e offset) b = update e b
    update (unary_math f e) b = update e b
