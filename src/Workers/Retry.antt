-- ===== src/Workers/Retry.antt =====
-- workers/src/runtime/retry.py
pub mod Once
use mini_company.Prelude.{
  ℕ, zero, suc, ◌+◌, ◌*◌, ◌^◌, min, Bool, true, false, Option, none, some, ◌∷◌, leb, if◌then◌else◌,
}
use mini_company.Workers.Client.{
  Call, Failure, Reply, connect_error, connect_timeout, read_timeout, status_error, nothing_tried,
  interrupted, workflow_failed, returned, raised,
}

-- `_BASE_DELAY_SECONDS`, in milliseconds
abbrev pub base_delay : ℕ
base_delay = 500

-- `_MAX_DELAY_SECONDS`, in milliseconds
abbrev pub max_delay : ℕ
max_delay = 8000

-- `backoff_delay`
unfoldable pub backoff_delay : ℕ → ℕ
backoff_delay attempt = min (base_delay * 2 ^ attempt) max_delay

-- `_RETRIABLE`
abbrev pub is_retriable : Failure → Bool
is_retriable connect_error = true
is_retriable connect_timeout = true
is_retriable read_timeout = false
is_retriable status_error = false
is_retriable nothing_tried = false
is_retriable interrupted = false
is_retriable workflow_failed = false

-- `await asyncio.sleep(delay)`
abbrev pub sleep : {A : Type 0} → ℕ → Call A → Call A
sleep delay call c = call (record c { slept = delay ∷ c.slept })

module _ {A : Type 0} (operation : Call A) (max_attempts : ℕ) where
  -- `raise last_error`, once the loop is through; without an attempt the `assert` fails.
  abbrev pub give_up : Option Failure → Call A
  give_up none c = (raised nothing_tried, c)
  give_up (some e) c = (raised e, c)

  -- One exception of the loop
  abbrev pub handle : ℕ → Failure → Call A → Call A
  handle attempt e rest =
      if is_retriable e
      then (if leb max_attempts (attempt + 1)
          then give_up (some e)
          else sleep (backoff_delay attempt) rest)
      else give_up (some e)

  -- The loop of `with_connection_retry`, for the attempts that remain.
  unfoldable pub retry : ℕ → ℕ → Option Failure → Call A
  retry zero attempt last_error c = give_up last_error c
  retry (suc remaining) attempt last_error c =
      let (r, c') = operation c in
      elim r [
        | returned a ↦ (returned a, c')
        | raised e ↦ handle attempt e (retry remaining (attempt + 1) (some e)) c'
      ]

  -- `with_connection_retry`
  unfoldable pub with_connection_retry : Call A
  unfolding retry
  with_connection_retry = retry max_attempts 0 none
