-- ===== src/Tasks/StateMachine.antt =====
-- backend/src/tasks/state_machine.py: which transitions of a task are allowed.
use mini_company.Prelude.{◌≡◌, refl, inl, inr, ◌⊎◌, Bool, true, List, [], ◌∷◌, any}
use mini_company.Tasks.Domain.{TaskStatus, queued, running, succeeded, failed, cancelled, status_eq}

-- `_ALLOWED`
unfoldable pub allowed : TaskStatus → List TaskStatus
allowed queued = running ∷ cancelled ∷ []
allowed running = succeeded ∷ failed ∷ cancelled ∷ []
allowed succeeded = []
allowed failed = []
allowed cancelled = []

-- `can_transition`: `to_status in _ALLOWED[from_status]`
unfoldable pub can_transition : TaskStatus → TaskStatus → Bool
unfolding allowed
can_transition from to = any (λ s. status_eq s to) (allowed from)

-- The transitions that a claim, a cancellation and the reaper make.
pub can_pick_up : can_transition queued running ≡ true
unfolding can_transition
can_pick_up = refl

pub can_withdraw : can_transition queued cancelled ≡ true
unfolding can_transition
can_withdraw = refl

pub can_abandon : can_transition running cancelled ≡ true
unfolding can_transition
can_abandon = refl

-- What a status becomes by allowed transitions.
pub data Reach (s : TaskStatus) : TaskStatus → Type 0 where
  here : Reach s s
  next : {t u : TaskStatus} → Reach s t → can_transition t u ≡ true → Reach s u

-- The statuses that a task has had on a way of transitions, the latest first.
unfoldable pub visits : {s t : TaskStatus} → Reach s t → List TaskStatus
visits {s} here = s ∷ []
visits (next {t} {u} r h) = u ∷ visits r

-- The statuses that a QUEUED task has had by the time that it has a given one.
abbrev pub IsLife : TaskStatus → List TaskStatus → Type 0
IsLife queued l = l ≡ queued ∷ []
IsLife running l = l ≡ running ∷ queued ∷ []
IsLife succeeded l = l ≡ succeeded ∷ running ∷ queued ∷ []
IsLife failed l = l ≡ failed ∷ running ∷ queued ∷ []
IsLife cancelled l = (l ≡ cancelled ∷ queued ∷ []) ⊎ (l ≡ cancelled ∷ running ∷ queued ∷ [])

IsLife-next :
    (s t : TaskStatus) (l : List TaskStatus)
    → can_transition s t ≡ true
    → IsLife s l
    → IsLife t (t ∷ l)
unfolding can_transition
IsLife-next queued running l h life = cc
IsLife-next queued cancelled l h life = inl (cc)
IsLife-next running succeeded l h life = cc
IsLife-next running failed l h life = cc
IsLife-next running cancelled l h life = inr (cc)
IsLife-next s t l h life = cc

-- Along whatever allowed transitions a QUEUED task goes, it has had only these statuses: a RUNNING
-- one was QUEUED before, a SUCCEEDED or FAILED one QUEUED and then RUNNING, a CANCELLED one QUEUED
-- and perhaps RUNNING, and none has had a status twice.
pub visits-IsLife : {t : TaskStatus} (r : Reach queued t) → IsLife t (visits r)
unfolding visits
visits-IsLife here = refl
visits-IsLife (next {t} {u} r h) = IsLife-next t u (visits r) h (visits-IsLife r)
