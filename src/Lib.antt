-- ===== src/Lib.antt =====
-- The control plane of Boardroom OS: workflows of tickets that are worked on by agents, under review
-- by a board, kept as a log of events from which every table is rebuilt.
--
-- Parts. backend/app/core/reducer.py rebuilds the tables from the log: tickets (Ticket.antt and
-- Ticket/), nodes (Node.antt, Node/), incidents and their circuit breakers (Incident.antt,
-- Incident/) and workflows (Workflow.antt, Workflow/). The workflow table uses the three others and
-- backend/app/core/workflow_completion.py (Completion/), which decides whether a workflow is closed
-- out and which stage it shows. The employees (Employee.antt, Employee/) are normalised by
-- backend/app/core/persona_profiles.py (Persona/). backend/app/db/repository.py (Repository.antt,
-- Repository/) keeps the log and the tables. backend/app/core/ticket_handlers.py takes commands: a
-- worker leases, starts and reports on a ticket and an operator cancels it (Handlers/); a ticket
-- waits for others (Gates.antt, Gates/) and is tried again (Retry.antt, Retry/).
-- backend/app/core/staffing_containment.py (Staffing/) writes to the log when an employee is frozen,
-- replaced or restored.
--
-- The model. An event is a record of its type, workflow, time, number and payload (Event.antt). A
-- payload is a record of the keys that the code reads; each is missing, null or a value, since
-- `payload.get(key, default)` and `payload.get(key) or default` differ on null (Field.antt). Values
-- have the types of the command contracts. A `dict` is a list of entries in the order in which keys
-- were first written (Base/Dict.antt). `payload["key"]` on a missing key is the error `KeyError`
-- (Base/Result.antt). The loops of the reducer have one shape: an event raises, changes nothing, or
-- writes one key (Projection.antt); a component says which, in `plan`. A branch of the reducer is a
-- function of Ticket/Changes.antt, Node.antt or Incident.antt named for what the event does.
-- The time of an event is a number of microseconds from the start of the year 1; `isoformat` and
-- `fromisoformat` are taken to be inverse, and any other text is no time. A sum past the year 9999
-- raises OverflowError (`plus_seconds` of Event.antt): in the reducer this depends on the ticket, so
-- the loop over tickets tests it besides (`ticket_step`, Ticket/Clock.antt).
--
-- Bounds. The search for a maker's stage follows maker tickets and may run in a circle; Python stops
-- it with RecursionError. Here it has a number of frames, `depth`, and raises when they are used up
-- (Completion/Stage.antt). Completion/Depth.antt says which depth is enough: any one above the rank
-- of the specs, if makers fall in rank. The search for a dependency cycle has a round for every gate
-- and every reference that a created spec of the log makes (Gates.antt), and the loops over parent
-- tickets have one for every event (Retry.antt); both give None if the rounds are used up, and
-- Gates/Terminates.antt and Retry/Chain.antt say that this does not happen. `int_times` looks for at
-- most 1,100 binary digits, more than a float has; a product that is no finite float, where Python
-- raises, is not modelled. No other function has fuel.
--
-- Commands. A handler is a transaction around its guards (Handlers/Transaction.antt): a key that is
-- known is answered as a duplicate; the guards refuse, or give an event to insert; then the tables
-- are rebuilt. A raise leaves the database as it was (`after_transaction`). A sequence number counts
-- the rows of `events`. Reading a row converts its times, and a column that is NOT NULL is checked
-- when a table is written. The command's id, the time and the provider configuration are arguments.
-- An acknowledgement's text is a value of `Reason`. Keys of a payload that no modelled code reads are
-- left out of the events that are written.
--
-- Staffing. The state is the event table, in which a second row with an idempotency key is not
-- inserted, and the number of random ids drawn. The rows of the ticket table are given as the query
-- lists them. The random ids are a parameter.
--
-- Not modelled: what follows a transaction (the bookkeeping of git working copies), the commands that
-- create, complete and fail a ticket, the scheduler, approvals, meetings, the agents, the runtime and
-- providers, artifacts, the other tables of the repository, the HTTP interface and the user
-- interface. `str` of values that are no text is not modelled, nor are errors of Python on values of
-- another type.
mod Base
mod Projection
pub mod Field
pub mod Persona
pub mod Employee
pub mod Spec
pub mod Event
pub mod Ticket
pub mod Node
pub mod Incident
pub mod Completion
pub mod Workflow
pub mod Repository
pub mod Handlers
pub mod Gates
pub mod Retry
pub mod Staffing
mod Tests
