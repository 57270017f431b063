-- ===== src/Search/SingleFlight.antt =====
-- doc-search/app/services/search_service.py: `_single_flight` as concurrent tasks run it.
--
-- A task is a request that missed in the cache. Between two awaits nothing else runs, so a step is
-- what a task does up to its next await. A future is named by the task that created it. The outcome of
-- the leader (the engine call and the cache fill, `single_flight` of Search) is of any type `R`: a
-- response or the exception.
pub mod Sharing
pub mod Orphans
pub mod Tenancy
use distributed_document_sea.Prelude.{
  ℕ, ◌==◌, ◌≡◌, Text, text_eq, Bool, true, false, not, if◌then◌else◌, Option, none, some,
}

-- Where a task stands in the method.
pub data Phase (R : Type 0) : Type 0 where
  -- it has not entered
  outside : Phase R
  -- it awaits `_execute` or `set_json`, under the key
  leading : Text → Phase R
  -- it has returned or raised the outcome
  led : Text → R → Phase R
  -- it was cancelled while it led: `CancelledError` is no `Exception`
  cut : Text → Phase R
  -- it awaits `asyncio.shield` of the future of another task
  waiting : Text → ℕ → Phase R
  -- the await has returned or raised the future's outcome
  joined : Text → ℕ → R → Phase R
  -- it was cancelled while it waited: the shield leaves the future alone
  gone : Phase R

-- `_inflight`, the futures (none while pending) and the tasks.
pub record Flights (R : Type 0) : Type 0 where
  pub inflight : Text → Option ℕ
  pub future : ℕ → Option R
  pub task : ℕ → Phase R

unfoldable pub put : {A : Type 0} → ℕ → A → (ℕ → A) → ℕ → A
put t v f u = if u == t then v else f u

unfoldable pub put_key : {A : Type 0} → Text → A → (Text → A) → Text → A
put_key k v f j = if text_eq j k then v else f j

module _ {R : Type 0} where
  -- `_inflight = {}`
  unfoldable pub no_flights : Flights R
  no_flights = record { inflight = λ k. none; future = λ t. none; task = λ t. outside }

  -- The first part of the method, when `_inflight.get(key)` is the given value.
  unfoldable pub join_or_lead : ℕ → Text → Option ℕ → Flights R → Flights R
  unfolding put put_key
  join_or_lead t key (some existing) s = record s { task = put t (waiting key existing) s.task }
  join_or_lead t key none s = record s {
    inflight = put_key key (some t) s.inflight;
    future = put t none s.future;
    task = put t (leading key) s.task;
  }

  unfoldable pub enter : ℕ → Text → Flights R → Flights R
  enter t key s = join_or_lead t key (s.inflight key) s

  -- `if not future.done()`
  unfoldable pub settle : R → Option R → Option R
  settle r none = some r
  settle r (some done) = some done

  -- The leader's outcome: `set_result` or `set_exception`, then `finally`.
  unfoldable pub finish : ℕ → Text → R → Flights R → Flights R
  unfolding put put_key settle
  finish t key r s = record {
    inflight = put_key key none s.inflight;
    future = put t (settle r (s.future t)) s.future;
    task = put t (led key r) s.task;
  }

  -- The leader is cancelled: only `finally` runs.
  unfoldable pub cancel_leader : ℕ → Text → Flights R → Flights R
  unfolding put put_key
  cancel_leader t key s = record s {
    inflight = put_key key none s.inflight;
    task = put t (cut key) s.task;
  }

  -- The shielded future is done.
  unfoldable pub wake : ℕ → Text → ℕ → R → Flights R → Flights R
  unfolding put
  wake t key f r s = record s { task = put t (joined key f r) s.task }

  -- A waiting task is cancelled.
  unfoldable pub cancel_waiter : ℕ → Flights R → Flights R
  unfolding put
  cancel_waiter t s = record s { task = put t gone s.task }

  pub data Step (s : Flights R) : Flights R → Type 0 where
    enters : (t : ℕ) (key : Text) → s.task t ≡ outside → Step s (enter t key s)
    finishes : (t : ℕ) (key : Text) (r : R) → s.task t ≡ leading key → Step s (finish t key r s)
    leader_cancelled :
        (t : ℕ) (key : Text) → s.task t ≡ leading key → Step s (cancel_leader t key s)
    wakes :
        (t : ℕ) (key : Text) (f : ℕ) (r : R)
        → s.task t ≡ waiting key f
        → s.future f ≡ some r
        → Step s (wake t key f r s)
    waiter_cancelled :
        (t : ℕ) (key : Text) (f : ℕ) → s.task t ≡ waiting key f → Step s (cancel_waiter t s)

  pub data Reach (s : Flights R) : Flights R → Type 0 where
    here : Reach s s
    next : {t u : Flights R} → Reach s t → Step t u → Reach s u
