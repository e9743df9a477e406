-- ===== src/Company/World.antt =====
-- What the services share: the collections behind the repository protocols, the vector store, the events that
-- were published, and how often the clock was read and an object id was drawn. A service call is
-- an action: it may raise, and what it wrote before stays written.
use mini_company.Prelude.{
  ℕ, ◌+◌, ◌≡◌, ◌⊎◌, inl, inr, refl, Bool, true, false, Option, none, some, List, ◌∷◌, ◌++◌, [],
}
use mini_company.Prelude.Dict.{Dict}
use mini_company.Prelude.Text.{Text}
use mini_company.Tasks.Domain.{Task, Activity}
use mini_company.Employees.Domain.{Employee}
use mini_company.Schedules.Domain.{Schedule}
use mini_company.Ledger.Domain.{LedgerEntry}
use mini_company.Knowledge.Domain.{SourceDocument, Row}
use mini_company.Chat.Domain.{Conversation}
use mini_company.Realtime.Schemas.{OfficeEvent}

-- What the runtime gives: the instant that the n-th reading of the clock shows, and the n-th
-- object id that the driver draws, never the same one twice; the hexadecimal form of an id, which
-- reads back as that id; and a number of microseconds printed in whole seconds.
pub record Runtime : Type 0 where
  pub time : ℕ → ℕ
  pub object_id : ℕ → ℕ
  pub object_id_unique : (i j : ℕ) → object_id i ≡ object_id j → i ≡ j
  pub show_id : ℕ → Text
  pub parse_id : Text → Option ℕ
  pub parse-show : (i : ℕ) → parse_id (show_id i) ≡ some i
  pub show_seconds : ℕ → Text

pub record World : Type 0 where
  pub employees : Dict Employee
  pub tasks : Dict Task
  pub activities : Dict Activity
  pub schedules : Dict Schedule
  pub entries : Dict LedgerEntry
  pub documents : Dict SourceDocument
  pub rows : List (Text × List Row)
  pub conversations : Dict Conversation
  pub published : List OfficeEvent
  pub reads : ℕ
  pub drawn : ℕ

-- The exceptions of the services, `ValueError`, an object id that does not read, a failed
-- `assert`, and a request whose body does not pass the validation of its route.
pub data Error : Type 0 where
  employee_not_found employee_name_taken employee_at_work : Error
  task_not_found invalid_task_transition employee_busy invalid_pagination_cursor : Error
  schedule_not_found ledger_entry_not_found entry_already_reversed : Error
  profile_not_found provider_not_configured llm_call_failed daily_cost_limit_exceeded : Error
  document_not_found document_parse_failed unsupported_content_type : Error
  unsupported_chunking_strategy empty_document embedding_failed conversation_not_found : Error
  cannot_reverse_reversal value_error invalid_id assertion_error request_invalid : Error

pub data Result (A : Type 0) : Type 0 where
  ok : A → Result A
  err : Error → Result A

abbrev pub Action : Type 0 → Type 0
Action A = World → Result A × World

module _ {A : Type 0} where
  abbrev pub pure : A → Action A
  pure a w = (ok a, w)

  abbrev pub raise : Error → Action A
  raise e w = (err e, w)

  abbrev pub gets : (World → A) → Action A
  gets f w = (ok (f w), w)

  -- `if x is None: raise e`
  abbrev pub or_raise : Option A → Error → Action A
  or_raise none e = raise e
  or_raise (some a) e = pure a

  -- Whether a call returned.
  abbrev pub is_ok : Result A → Bool
  is_ok (ok _) = true
  is_ok (err _) = false

  -- What a call raised.
  abbrev pub error_of : Result A → Option Error
  error_of (ok _) = none
  error_of (err e) = some e

infixl 5 ◌>>=◌ ◌>>◌
abbrev pub ◌>>=◌ : {A B : Type 0} → Action A → (A → Action B) → Action B
◌>>=◌ m f w = let (r, w') = m w in elim r [ ok a ↦ f a w' | err e ↦ (err e, w') ]

abbrev pub ◌>>◌ : {A B : Type 0} → Action A → Action B → Action B
m >> k = m >>= λ _. k

abbrev pub raise_if : Bool → Error → Action Unit
raise_if true e = raise e
raise_if false e = pure tt

abbrev pub modify : (World → World) → Action Unit
modify f w = (ok tt, f w)

-- `await self._events.publish(event)`: the bus catches what its subscribers raise.
abbrev pub publish : OfficeEvent → Action Unit
publish event = modify (λ w. record w { published = w.published ++ event ∷ [] })

module _ (runtime : Runtime) where
  -- `datetime.now(UTC)`
  abbrev pub now : Action ℕ
  now w = (ok (runtime.time w.reads), record w { reads = w.reads + 1 })

  -- `PydanticObjectId()`
  abbrev pub draw_id : Action ℕ
  draw_id w = (ok (runtime.object_id w.drawn), record w { drawn = w.drawn + 1 })

pub Result-cases :
    {A : Type 0} (r : Result A) → ((a : A) × (r ≡ ok a)) ⊎ ((e : Error) × (r ≡ err e))
Result-cases (ok a) = inl (a, refl)
Result-cases (err e) = inr (e, refl)
