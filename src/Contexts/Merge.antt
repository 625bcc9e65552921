-- ===== src/Contexts/Merge.antt =====
-- contexts/merge.go: a context that ends as soon as one of its two parents does.
-- A parent is known by what `Err` gives, which is not nil once its `Done` channel is closed. The
-- goroutine of `run` takes one turn for `select`, one for the part under the lock and one for
-- `close`, and between its turns the parents may end.
pub mod Safety
pub mod Liveness
pub mod Deadlines
use terraform_provider_postg.Base.{
  Bool, List, Option, String, [], false, if◌then◌else◌, none, some, true, ◌&&◌, ◌||◌, ◌∷◌,
}
use terraform_provider_postg.Effect.{Error}
use terraform_provider_postg.Text.Decimal.{ℤ}

pub data Parent : Type 0 where
  main_ctx ctx : Parent

-- The three cases of the `select`.
pub data Case : Type 0 where
  main_done ctx_done own_done : Case

-- Where `run` is. `crashed` is the panic of closing a closed channel.
pub data Routine : Type 0 where
  selecting : Routine
  woken : Parent → Routine
  closing returned crashed : Routine

-- `done` tells whether the channel is closed.
pub record MergedContext : Type 0 where
  pub main_err : Option Error
  pub ctx_err : Option Error
  pub err : Option Error
  pub done : Bool
  pub routine : Routine

-- A parent ends, or `run` takes a turn, in which `select` prefers the given case among those that
-- are ready.
pub data Happening : Type 0 where
  main_ends ctx_ends : Error → Happening
  turn : Case → Happening

abbrev pub merge : (main_err ctx_err : Option Error) → MergedContext
merge main_err ctx_err = record {
  main_err = main_err;
  ctx_err = ctx_err;
  err = none;
  done = false;
  routine = selecting;
}

-- A context that has ended keeps its error.
abbrev pub ended : Option Error → Error → Option Error
ended (some old) e = some old
ended none e = some e

abbrev pub is_done : Option Error → Bool
is_done none = false
is_done (some e) = true

abbrev pub parent_err : Parent → MergedContext → Option Error
parent_err main_ctx c = c.main_err
parent_err ctx c = c.ctx_err

abbrev pub is_ready : Case → MergedContext → Bool
is_ready main_done c = is_done c.main_err
is_ready ctx_done c = is_done c.ctx_err
is_ready own_done c = c.done

abbrev pub chosen : Case → Routine
chosen main_done = woken main_ctx
chosen ctx_done = woken ctx
chosen own_done = returned

unfoldable pub select : Case → MergedContext → Routine
select prefer c =
    if is_ready prefer c
    then chosen prefer
    else if is_ready main_done c
    then chosen main_done
    else if is_ready ctx_done c
    then chosen ctx_done
    else if is_ready own_done c
    then chosen own_done
    else selecting

-- The part under the lock.
abbrev pub set_err : Parent → Option Error → MergedContext → MergedContext
set_err parent (some e) c = record c { routine = returned }
set_err parent none c = record c { err = parent_err parent c; routine = closing }

abbrev pub close_done : Bool → MergedContext → MergedContext
close_done true c = record c { routine = crashed }
close_done false c = record c { done = true; routine = returned }

-- One turn of `run`.
abbrev pub run_at : Routine → Case → MergedContext → MergedContext
run_at selecting prefer c = record c { routine = select prefer c }
run_at (woken parent) prefer c = set_err parent c.err c
run_at closing prefer c = close_done c.done c
run_at returned prefer c = c
run_at crashed prefer c = c

unfoldable pub happen : Happening → MergedContext → MergedContext
happen (main_ends e) c = record c { main_err = ended c.main_err e }
happen (ctx_ends e) c = record c { ctx_err = ended c.ctx_err e }
happen (turn prefer) c = run_at c.routine prefer c

-- The first of the list happens first.
unfoldable pub history_of : List Happening → MergedContext → MergedContext
unfolding happen
history_of [] c = c
history_of (h ∷ hs) c = history_of hs (happen h c)

-- `Deadline` gives a time and whether it is set; without one the standard library's contexts give
-- the zero time. `before` compares two times by their `UnixNano`.
module _ {Time : Type 0} (before : Time → Time → Bool) (zero_time : Time) where
  unfoldable pub deadline : (ctx_deadline main_deadline : Time × Bool) → Time × Bool
  deadline (d1, ok1) (d2, ok2) =
      (if ok1 && before d1 d2 then d1 else if ok2 then d2 else zero_time, ok1 || ok2)

-- `Value` asks `ctx` alone.
module _ {Key Value : Type 0} where
  unfoldable pub value : (main_value ctx_value : Key → Option Value) → Key → Option Value
  value main_value ctx_value key = ctx_value key
