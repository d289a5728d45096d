-- ===== src/Handlers/Serve.antt =====
-- backend/app/core/ticket_handlers.py: the commands one after another, each in its own transaction
-- (`ControlPlaneRepository.transaction` of backend/app/db/repository.py).
use boardroom_os.Base.{ℕ, String, List, [], ◌∷◌, option_eq, text_eq}
use boardroom_os.Base.Result.{Result, ok, raise}
use boardroom_os.Repository.{Repository}
use boardroom_os.Handlers.Workers.{Provider}
use boardroom_os.Handlers.Transaction.{Ack, Call, Verdict}
use boardroom_os.Handlers.Lease.{TicketLease, decide_lease, handle_ticket_lease}
use boardroom_os.Handlers.Start.{decide_start, handle_ticket_start}
use boardroom_os.Handlers.Heartbeat.{decide_heartbeat, handle_ticket_heartbeat}
use boardroom_os.Handlers.Cancel.{TicketCancel, decide_cancel, handle_ticket_cancel}

pub data Command : Type 0 where
  lease : TicketLease → Command
  start : (started_by : String) → Command
  heartbeat : (reported_by : String) → Command
  cancel : TicketCancel → Command

abbrev pub action_of : Command → String
action_of (lease l) = "ticket-lease"
action_of (start w) = "ticket-start"
action_of (heartbeat w) = "ticket-heartbeat"
action_of (cancel x) = "ticket-cancel"

unfoldable pub decide : List Provider → Call → Command → Repository → Result Verdict
unfolding decide_lease decide_start decide_heartbeat decide_cancel
decide providers c (lease l) = decide_lease c l
decide providers c (start w) = decide_start c w providers
decide providers c (heartbeat w) = decide_heartbeat c w
decide providers c (cancel x) = decide_cancel c x

unfoldable pub handle :
    (depth : ℕ) → List Provider → Call → Command → Repository → Result (Ack × Repository)
unfolding handle_ticket_lease handle_ticket_start handle_ticket_heartbeat handle_ticket_cancel
handle depth providers c (lease l) = handle_ticket_lease depth c l
handle depth providers c (start w) = handle_ticket_start depth c w providers
handle depth providers c (heartbeat w) = handle_ticket_heartbeat depth c w
handle depth providers c (cancel x) = handle_ticket_cancel depth c x

-- A raise rolls back.
unfoldable pub after_transaction : Repository → Result (Ack × Repository) → Repository
after_transaction r (ok (ack, s)) = s
after_transaction r (raise x) = r

unfoldable pub serve : (depth : ℕ) → List Provider → Repository → List (Call × Command) → Repository
unfolding handle after_transaction
serve depth providers r [] = r
serve depth providers r ((c, x) ∷ qs) =
    serve depth providers (after_transaction r (handle depth providers c x r)) qs
