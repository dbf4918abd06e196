-- ===== src/Hid/Controller.antt =====
-- src/hid/mod.rs, `HidController`: the queue between the clients and the backend, the place for a
-- mouse move that finds the queue full, and the worker that empties both. What the worker passes to
-- `process_hid_event`, which passes it on where there is a backend, is `processed`, oldest first. A call of a client and a
-- round of the worker are each one step.
pub mod Worker
pub mod Fifo
pub mod Moves
mod Examples
use one_kvm_stream_box.Base.{
  ℕ, ◌+◌, Bool, true, false, Option, none, some, List, [], ◌∷◌, ◌++◌, leb, if◌then◌else◌, length,
}
use one_kvm_stream_box.Hid.Event.{KeyboardEvent, MouseEventType, MouseEvent, ConsumerEvent}

-- HID_EVENT_QUEUE_CAPACITY
abbrev pub queue_capacity : ℕ
queue_capacity = 64

pub data HidEvent : Type 0 where
  keyboard : KeyboardEvent → HidEvent
  mouse : MouseEvent → HidEvent
  consumer : ConsumerEvent → HidEvent
  reset_all : HidEvent

-- `closed`: the receiver is gone.
pub record HidController : Type 0 where
  pub backend_available : Bool
  pub closed : Bool
  pub queue : List HidEvent
  pub pending_move : Option MouseEvent
  pub pending_move_flag : Bool
  pub processed : List HidEvent

pub data SendResult : Type 0 where
  sent not_available queue_closed : SendResult

abbrev pub Sent : Type 0
Sent = HidController × SendResult

abbrev pub is_full : HidController → Bool
is_full c = leb queue_capacity (length c.queue)

abbrev pub push : HidEvent → HidController → HidController
push event c = record c { queue = c.queue ++ (event ∷ []) }

-- A call of it. What the backend makes of the event, where there is one, is not kept here.
unfoldable pub process_hid_event : HidEvent → HidController → HidController
process_hid_event event c = record c { processed = c.processed ++ (event ∷ []) }

-- The move that is taken out of its place, if there is one.
unfoldable pub process_move : Option MouseEvent → HidController → HidController
process_move none c = c
process_move (some m) c = process_hid_event (mouse m) c

-- The flag is swapped, and the move taken, after each event.
unfoldable pub flush_move : HidController → HidController
unfolding process_move
flush_move c =
    if c.pending_move_flag
    then process_move c.pending_move (record c { pending_move_flag = false; pending_move = none })
    else c

-- A round of the worker's loop. With nothing in the queue it waits.
unfoldable pub round_of : List HidEvent → HidController → HidController
round_of [] c = c
round_of (event ∷ rest) c = flush_move (process_hid_event event (record c { queue = rest }))

unfoldable pub worker_round : HidController → HidController
unfolding round_of
worker_round c = round_of c.queue c

unfoldable pub enqueue_mouse_move : MouseEvent → HidController → Sent
enqueue_mouse_move event c =
    if c.closed
    then (c, queue_closed)
    else if is_full c
    then (record c { pending_move = some event; pending_move_flag = true }, sent)
    else (push (mouse event) c, sent)

-- With a full queue the call waits for 30 ms. `in_time`: the worker takes an event meanwhile, and the
-- place is the caller's; else the event is dropped, and the caller is told nothing of that. One caller
-- waits at a time.
unfoldable pub enqueue_event : Bool → HidEvent → HidController → Sent
enqueue_event in_time event c =
    if c.closed
    then (c, queue_closed)
    else if is_full c
    then (if in_time then (push event (worker_round c), sent) else (c, sent))
    else (push event c, sent)

unfoldable pub send_keyboard : Bool → KeyboardEvent → HidController → Sent
send_keyboard in_time event c =
    if c.backend_available then enqueue_event in_time (keyboard event) c else (c, not_available)

abbrev pub is_move : MouseEventType → Bool
is_move MouseEventType.move = true
is_move MouseEventType.move_abs = true
is_move _ = false

unfoldable pub send_mouse : Bool → MouseEvent → HidController → Sent
send_mouse in_time event c =
    if c.backend_available
    then (if is_move event.event_type
        then enqueue_mouse_move event c
        else enqueue_event in_time (mouse event) c)
    else (c, not_available)

unfoldable pub send_consumer : Bool → ConsumerEvent → HidController → Sent
send_consumer in_time event c =
    if c.backend_available then enqueue_event in_time (consumer event) c else (c, not_available)

-- Without a backend there is nothing to reset.
unfoldable pub reset : Bool → HidController → Sent
reset in_time c = if c.backend_available then enqueue_event in_time reset_all c else (c, sent)

unfoldable pub send : Bool → HidEvent → HidController → Sent
send in_time (keyboard e) c = send_keyboard in_time e c
send in_time (mouse e) c = send_mouse in_time e c
send in_time (consumer e) c = send_consumer in_time e c
send in_time reset_all c = reset in_time c

-- What happens to a controller: an event is sent, or the worker does a round.
pub data Input : Type 0 where
  event : Bool → HidEvent → Input
  work : Input

unfoldable pub step : Input → HidController → HidController
step (event in_time e) c = (send in_time e c).0
step work c = worker_round c

unfoldable pub run : List Input → HidController → HidController
run [] c = c
run (i ∷ is) c = run is (step i c)
