-- ===== src/Lib.antt =====
-- A model of the office: a company of employees that work on tasks. Services hold the rules and
-- write to stores, workers claim tasks and report on them, background loops run schedules and take
-- back stuck tasks, and documents are cut into chunks to be searched.
--
-- The parts, and the files that model them (paths from the repository's root):
-- - Tasks: backend/src/tasks. Domain has the data of constants.py and domain.py, StateMachine the
--   table of state_machine.py, Service one action for each method of `TaskService`, Routes the
--   routes of router.py by which a worker ends a task and adds an activity, with the limits on their
--   bodies, Responses what the methods return, Repository the stores.
-- - Employees: backend/src/employees. Service is `EmployeeService`, Desk is desk.py.
-- - Schedules: backend/src/schedules. Service is `ScheduleService`, Clock the wall clock of the
--   office.
-- - Ledger: backend/src/ledger. Service has the methods of `LedgerService` but the rendering of
--   texts, Calendar the windows of period.py.
-- - Realtime: the events of backend/src/realtime, and Hub, which is hub.py.
-- - Llm: backend/src/llm. Service is `LlmService`, Profiles has profiles.py and pricing.py,
--   Gateway the local model of gateway.py. A cost is counted in the unit in which it is whole.
-- - Company: World holds all stores, the published events and the counters of the runtime; Office
--   has a step for each call of the services of employees, tasks and schedules, so that calls of
--   all callers interleave. The ledger has its own steps, in Ledger/Books.
-- - Knowledge: backend/src/knowledge. Chunking has the strategies and the registry of chunking/,
--   Outline the nesting of headings of parsing/outline.py, Parsing the helpers of parsing/base.py.
--   Service and Search are `KnowledgeService`, Metadata its functions on metadata, Repository and
--   VectorStore its stores. Runs has the sequences of its calls that take documents in.
-- - Chat: backend/src/chat. Service is `ChatService`, Prompts the prompt and the table of the ledger
--   in it. It calls Knowledge, Ledger and Llm on the one world. Runs has the sequences of its calls.
-- - Workers: workers/src. Client is the way of sending of runtime/client.py, Retry is
--   runtime/retry.py, Harness has runtime/harness.py and one round of agent.py. A request is an
--   action of the services above, within the route of Tasks/Routes where it has a body.
-- - Prelude: shared types and lemmas. Samples and Tests: runs, and the theorems on small inputs.
--
-- A method is an action: a function of the world to a result and a new world. An exception ends
-- the method and keeps what it wrote before, as in the program, which has no transactions. A call
-- runs without another one in between; two repository methods promise that of themselves
-- (`claim_oldest_queued`, `claim_run`), and for a claim of a schedule the attempts of replicas are
-- stated on copies that they have read earlier.
--
-- Ids and instants (microseconds since the epoch, in UTC) are numbers, texts are lists of code
-- points, and an id that the code turns into a string stays the id, but for the cursor of a page and
-- the ids in the vector store, which are read back, and the responses of Knowledge and Chat. The
-- delays of a worker are counted in milliseconds. Amounts are integers in a smallest unit. Desk coordinates are counted in
-- millionths, the tolerance with which the code compares them. The stores are those that
-- backend/tests/fakes implements for the repository protocols; publishing appends an event to a
-- list, since the bus catches what its subscribers raise.
--
-- Parameters stand for what is not in the repository: `Runtime` for the clock, the drawing of
-- object ids, which are never the same twice, and printing; `Calendar` for the years and months of
-- `datetime`; `Zone` for the time zone database, with the fold of a wall clock that is shown twice,
-- in which midnight of a day that is shown once is not after the instants of that day; `LlmProvider` for what a language model answers; `Network` for the
-- sockets, and `Delivery` for what becomes of a request of a worker; `Splitter` for regular expressions; `Library` for the embeddings, SHA-256 and what is
-- computed with floats, which are otherwise their places in ascending order, and `Readers` for lower
-- case and the reading of dates; `Printer` for how the numbers in a prompt are printed.
--
-- Loops run on fuel: the search for a desk on the number of occupied desks, cutting a text on its
-- length. The theorems on them state what the whole loop does, so that the fuel is enough.
--
-- Not modelled: the other HTTP routes, configuration, logging, the queries that MongoDB and Milvus execute,
-- the Redis bus, the providers of language models and of embeddings, parsers of HTML, Markdown and
-- PDF, the scheduler and the workflows of the workers, and the frontend.
pub mod Chat
pub mod Company
pub mod Employees
pub mod Knowledge
pub mod Ledger
pub mod Llm
pub mod Prelude
pub mod Realtime
pub mod Samples
pub mod Schedules
pub mod Tasks
pub mod Tests
pub mod Workers
