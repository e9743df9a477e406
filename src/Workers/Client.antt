-- ===== src/Workers/Client.antt =====
-- workers/src/runtime/client.py, its way of sending. The network is a parameter: what becomes of
-- the n-th request that is sent. A request that does not connect has not reached the server; one
-- that gets no answer may have.
use mini_company.Prelude.{ℕ, ◌+◌, List}
use mini_company.Company.World.{World, Action, Result, ok, err}

-- The exceptions of a request, of a response with an error status, and of the body of a task.
pub data Failure : Type 0 where
  connect_error connect_timeout read_timeout status_error nothing_tried interrupted
        workflow_failed :
      Failure

pub data Reply (A : Type 0) : Type 0 where
  returned : A → Reply A
  raised : Failure → Reply A

-- What the network does with a request.
pub data Delivery : Type 0 where
  unreachable unreachable_in_time lost lost_after_delivery delivered : Delivery

-- The backend, the number of requests sent, and the delays slept, in milliseconds, the last first.
pub record Client : Type 0 where
  pub backend : World
  pub sent : ℕ
  pub slept : List ℕ

abbrev pub Call : Type 0 → Type 0
Call A = Client → Reply A × Client

-- `res.raise_for_status()`
abbrev pub read_status : {A : Type 0} → Result A → Reply A
read_status (ok a) = returned a
read_status (err e) = raised status_error

-- `self._http.request(...)`: the action is the whole route, the validation of the body included.
unfoldable pub request : {A : Type 0} → (ℕ → Delivery) → Action A → Call A
request network action c = elim (network c.sent) [
  | unreachable ↦ (raised connect_error, record c { sent = c.sent + 1 })
  | unreachable_in_time ↦ (raised connect_timeout, record c { sent = c.sent + 1 })
  | lost ↦ (raised read_timeout, record c { sent = c.sent + 1 })
  | lost_after_delivery ↦
      (raised read_timeout, record c { backend = (action c.backend).1; sent = c.sent + 1 })
  | delivered ↦ (
    read_status (action c.backend).0,
    record c { backend = (action c.backend).1; sent = c.sent + 1 },
  )
]
