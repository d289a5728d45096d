-- ===== src/Handlers/Transaction.antt =====
-- backend/app/core/ticket_handlers.py: what the handlers of commands share. A handler opens a
-- transaction, answers a command that it has seen with a duplicate, checks its guards, inserts an
-- event, refreshes the projections and commits. A raise leaves the database as it was.
use boardroom_os.Base.{
  ℕ, String, Bool, false, Option, none, some, option_eq, text_eq, ◌==◌, ◌&&◌, not, ltb,
  if◌then◌else◌,
}
use boardroom_os.Base.Result.{Result, ok, raise, runtime_error, type_error, ◌>>=◌}
use boardroom_os.Event.{Timestamp, iso, other_text}
use boardroom_os.Ticket.State.{Ticket, TicketStatus}
use boardroom_os.Node.{Node, NodeStatus}
use boardroom_os.Repository.{
  Row, Repository, NewEvent, get_event_by_idempotency_key, insert_event,
  get_current_ticket_projection, get_current_node_projection,
}
use boardroom_os.Repository.Refresh.{refresh_projections}

-- `CommandAckStatus`
pub data AckStatus : Type 0 where
  accepted rejected duplicate : AckStatus

-- The text of a refusal: a fixed one, or one that a format string makes of these values.
pub data Reason : Type 0 where
  message : String → Reason
  identical_command : (action : String) → Reason
  wrong_status : (ticket action : String) → TicketStatus → Reason
  wrong_node_status : (ticket node : String) → NodeStatus → Reason
  wrong_statuses : (ticket action : String) → TicketStatus → NodeStatus → Reason
  leased_until : (ticket : String) (owner : Option String) → Timestamp → Reason
  not_the_owner : (ticket : String) (owner : Option String) (worker : String) → Reason
  worker_not_active : (worker : Option String) → Reason
  provider_paused : (ticket : String) (provider : Option String) → Reason
  lease_expired : (ticket : String) → Reason
  heartbeat_expired : (ticket : String) → Reason
  already_cancelled already_completed already_terminal : (ticket : String) → Reason

-- `CommandAckEnvelope`; the hint is the ticket that it names.
pub record Ack : Type 0 where
  pub command_id : String
  pub idempotency_key : String
  pub status : AckStatus
  pub received_at : ℕ
  pub reason : Option Reason
  pub causation_hint : String

-- `new_prefixed_id("cmd")`, `now_local()`, and what every command names.
pub record Call : Type 0 where
  pub command_id : String
  pub received_at : ℕ
  pub workflow_id : String
  pub ticket_id : String
  pub node_id : String
  pub idempotency_key : String

unfoldable pub ack_of : Call → AckStatus → Option Reason → (hint : String) → Ack
ack_of c s reason hint = record {
  command_id = c.command_id;
  idempotency_key = c.idempotency_key;
  status = s;
  received_at = c.received_at;
  reason = reason;
  causation_hint = hint;
}

unfoldable pub duplicate_ack : Call → (action : String) → Ack
unfolding ack_of
duplicate_ack c action = ack_of c duplicate (some (identical_command action)) c.ticket_id

unfoldable pub rejected_ack : Call → Reason → Ack
unfolding ack_of
rejected_ack c reason = ack_of c rejected (some reason) c.ticket_id

-- What a handler does where an event's idempotency key is taken.
pub data Conflict : Type 0 where
  acknowledge : Conflict
  fail_with : String → Conflict

-- What the guards of a handler decide: to refuse, or to insert an event. What follows the insertion
-- in the same transaction is a function of the database; it may name another ticket for the hint.
pub data Verdict : Type 0 where
  reject : Reason → Verdict
  write : NewEvent → Conflict → (Repository → Result (Repository × Option String)) → Verdict

abbrev pub nothing_more : Repository → Result (Repository × Option String)
nothing_more r = ok (r, none)

abbrev pub hint_of : String → Option String → String
hint_of ticket none = ticket
hint_of ticket (some next) = if next == "" then ticket else next

unfoldable pub on_conflict :
    Call → (action : String) → Conflict → Repository → Result (Ack × Repository)
unfolding duplicate_ack
on_conflict c action acknowledge r = ok (duplicate_ack c action, r)
on_conflict c action (fail_with text) r = raise (runtime_error text)

unfoldable pub finish :
    (depth : ℕ)
    → Call
    → (Repository → Result (Repository × Option String))
    → Repository
    → Result (Ack × Repository)
unfolding ack_of refresh_projections
finish depth c after r = do
  (written, next) ← after r
  done ← refresh_projections depth written
  ok (ack_of c accepted none (hint_of c.ticket_id next), done)

unfoldable pub after_insert :
    (depth : ℕ)
    → Call
    → (action : String) → Conflict
    → (Repository → Result (Repository × Option String))
    → Repository
    → Option Repository
    → Result (Ack × Repository)
unfolding finish on_conflict
after_insert depth c action conflict after r none = on_conflict c action conflict r
after_insert depth c action conflict after r (some inserted) = finish depth c after inserted

unfoldable pub apply_verdict :
    (depth : ℕ) → Call → (action : String) → Repository → Verdict → Result (Ack × Repository)
unfolding rejected_ack insert_event after_insert
apply_verdict depth c action r (reject reason) = ok (rejected_ack c reason, r)
apply_verdict depth c action r (write e conflict after) =
    after_insert depth c action conflict after r (insert_event e r)

unfoldable pub unless_seen :
    Option Row
    → Call
    → (action : String) → Repository
    → Result (Ack × Repository)
    → Result (Ack × Repository)
unfolding duplicate_ack
unless_seen (some row) c action r otherwise = ok (duplicate_ack c action, r)
unless_seen none c action r otherwise = otherwise

unfoldable pub run_command :
    (depth : ℕ)
    → Call
    → (action : String) → (Repository → Result Verdict)
    → Repository
    → Result (Ack × Repository)
unfolding get_event_by_idempotency_key apply_verdict unless_seen
run_command depth c action decide r =
    unless_seen (get_event_by_idempotency_key r c.idempotency_key) c action r
      (decide r >>= apply_verdict depth c action r)

-- The guards with which every handler starts, and then its own.
unfoldable pub matching :
    Call
    → (missing : String) → (Ticket → Node → Result Verdict)
    → Option Ticket
    → Option Node
    → Result Verdict
matching c missing own (some t) (some n) =
    if not (t.workflow_id == some c.workflow_id && t.node_id == some c.node_id)
    then ok (reject (message "Ticket projection does not match the requested workflow or node."))
    else if not (n.latest_ticket_id == some c.ticket_id)
    then ok (reject (message "Node projection no longer points at this ticket."))
    else own t n
matching c missing own _ _ = ok (reject (message missing))

unfoldable pub with_current :
    Call → (missing : String) → (Ticket → Node → Result Verdict) → Repository → Result Verdict
unfolding get_current_ticket_projection get_current_node_projection matching
with_current c missing own r = do
  t ← get_current_ticket_projection r c.ticket_id
  matching c missing own t (get_current_node_projection r c.workflow_id c.node_id)

-- `t > now`: a text is not compared with a time.
unfoldable pub later_than : Timestamp → ℕ → Result Bool
later_than (iso t) now = ok (ltb now t)
later_than (other_text s) now = raise type_error

-- `t is not None and t > now`
unfoldable pub still_open : Option Timestamp → ℕ → Result Bool
unfolding later_than
still_open none now = ok false
still_open (some t) now = later_than t now
