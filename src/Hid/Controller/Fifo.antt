-- ===== src/Hid/Controller/Fifo.antt =====
-- Events that are not moves, through the queue and the worker.
use one_kvm_stream_box.Base.{
  ◌≡◌, refl, sym, ap, ◌∙◌, Bool, true, false, not, some, List, [], ◌∷◌, ◌++◌, append-nil,
  append_assoc, arith, if◌then◌else◌, All,
}
use one_kvm_stream_box.Hid.Event.{MouseEvent}
use one_kvm_stream_box.Hid.Controller.{
  HidEvent, keyboard, mouse, consumer, reset_all, HidController, Sent, sent, queue_closed, is_full,
  push, worker_round, enqueue_mouse_move, enqueue_event, is_move, send_keyboard, send_mouse,
  send_consumer, reset, send, Input, event, work, step, run,
}
use one_kvm_stream_box.Hid.Controller.Worker.{
  others, others-append, IsReady, accepted, worker_round-accepted, worker_round-IsReady,
}

push-accepted :
    (e : HidEvent) (c : HidController) → accepted (push e c) ≡ accepted c ++ others (e ∷ [])
push-accepted e c =
    ap (λ (l : List HidEvent). others c.processed ++ l) (others-append c.queue (e ∷ []))
    ∙ sym (append_assoc (others c.processed) (others c.queue) (others (e ∷ [])))

push-IsReady : (e : HidEvent) (c : HidController) → IsReady c → IsReady (push e c)
push-IsReady e c h = record {
  available = h.available;
  open_queue = h.open_queue;
  parked = h.parked;
}

-- An event with the list that it adds to.
abbrev Adds : HidEvent → HidController → Sent → Type 0
Adds e c r = IsReady r.0 × (accepted r.0 ≡ accepted c ++ others (e ∷ []))

-- The branches of the two calls, by the values of the tests.
enqueue_event-branches :
    (closed full : Bool) (e : HidEvent) (c : HidController)
    → closed ≡ false
    → IsReady c
    → Adds e c (
        if closed
        then (c, queue_closed)
        else if full
        then (push e (worker_round c), sent)
        else (push e c, sent))
enqueue_event-branches true full e c is_open h = absurd (ground (arith, is_open))
enqueue_event-branches false true e c is_open h = (
  push-IsReady e (worker_round c) (worker_round-IsReady c h),
  push-accepted e (worker_round c)
      ∙ ap (λ (l : List HidEvent). l ++ others (e ∷ [])) (worker_round-accepted c h),
)
enqueue_event-branches false false e c is_open h = (push-IsReady e c h, push-accepted e c)

enqueue_event-Adds :
    (e : HidEvent) (c : HidController) → IsReady c → Adds e c (enqueue_event true e c)
unfolding enqueue_event
enqueue_event-Adds e c h = enqueue_event-branches c.closed (is_full c) e c h.open_queue h

others-move : (m : MouseEvent) → is_move m.event_type ≡ true → others (mouse m ∷ []) ≡ []
unfolding others
others-move m h = ap (λ (b : Bool). if not b then mouse m ∷ [] else []) h

enqueue_mouse_move-branches :
    (closed full : Bool) (m : MouseEvent) (c : HidController)
    → closed ≡ false
    → is_move m.event_type ≡ true
    → IsReady c
    → Adds (mouse m) c (
        if closed
        then (c, queue_closed)
        else if full
        then (record c { pending_move = some m; pending_move_flag = true }, sent)
        else (push (mouse m) c, sent))
enqueue_mouse_move-branches true full m c is_open moves h = absurd (ground (arith, is_open))
enqueue_mouse_move-branches false true m c is_open moves h = (
  record { available = h.available; open_queue = h.open_queue; parked = moves },
  sym (append-nil (accepted c))
      ∙ ap (λ (l : List HidEvent). accepted c ++ l) (sym (others-move m moves)),
)
enqueue_mouse_move-branches false false m c is_open moves h =
    (push-IsReady (mouse m) c h, push-accepted (mouse m) c)

enqueue_mouse_move-Adds :
    (m : MouseEvent) (c : HidController)
    → is_move m.event_type ≡ true
    → IsReady c
    → Adds (mouse m) c (enqueue_mouse_move m c)
unfolding enqueue_mouse_move
enqueue_mouse_move-Adds m c moves h =
    enqueue_mouse_move-branches c.closed (is_full c) m c h.open_queue moves h

-- A guarded call, where the backend is there.
guarded :
    (available : Bool) (e : HidEvent) (c : HidController) (r s : Sent)
    → available ≡ true
    → Adds e c r
    → Adds e c (if available then r else s)
guarded true e c r s is h = h
guarded false e c r s is h = absurd (ground (arith, is))

either_way :
    (moves : Bool) (m : MouseEvent) (c : HidController)
    → is_move m.event_type ≡ moves
    → IsReady c
    → Adds (mouse m) c (if moves then enqueue_mouse_move m c else enqueue_event true (mouse m) c)
either_way true m c is h = enqueue_mouse_move-Adds m c is h
either_way false m c is h = enqueue_event-Adds (mouse m) c h

send-Adds : (e : HidEvent) (c : HidController) → IsReady c → Adds e c (send true e c)
unfolding send send_keyboard send_mouse send_consumer reset
send-Adds (keyboard k) c h =
    guarded c.backend_available _ c _ _ h.available (enqueue_event-Adds _ c h)
send-Adds (consumer k) c h =
    guarded c.backend_available _ c _ _ h.available (enqueue_event-Adds _ c h)
send-Adds reset_all c h = guarded c.backend_available _ c _ _ h.available (enqueue_event-Adds _ c h)
send-Adds (mouse m) c h =
    guarded c.backend_available (mouse m) c _ _ h.available
      (either_way (is_move m.event_type) m c refl h)

-- The events of a list of inputs, and that the worker was in time for each of them.
unfoldable pub events_of : List Input → List HidEvent
events_of [] = []
events_of (event in_time e ∷ is) = e ∷ events_of is
events_of (work ∷ is) = events_of is

abbrev pub IsInTime : Input → Type 0
IsInTime (event in_time e) = in_time ≡ true
IsInTime work = Unit

-- From a controller with a backend and an open queue: over any run of events and rounds of the worker
-- in which the worker takes an event in time whenever a call waits for room, the events that are not
-- moves are, taken together, those that the backend has been given and behind them those that wait,
-- each once and in the order in which they were sent.
pub run-accepted :
    (is : List Input) (c : HidController)
    → IsReady c
    → All IsInTime is
    → others (run is c).processed ++ others (run is c).queue
      ≡ (others c.processed ++ others c.queue) ++ others (events_of is)
unfolding run step events_of others
run-accepted [] c h t = sym (append-nil (accepted c))
run-accepted (event true e ∷ is) c h t =
    let (ready, added) = send-Adds e c h in
    run-accepted is (send true e c).0 ready t.1
    ∙ ap (λ (l : List HidEvent). l ++ others (events_of is)) added
    ∙ append_assoc (accepted c) (others (e ∷ [])) (others (events_of is))
    ∙ ap (λ (l : List HidEvent). accepted c ++ l) (sym (others-append (e ∷ []) (events_of is)))
run-accepted (event false e ∷ is) c h t = absurd (ground (arith, t.0))
run-accepted (work ∷ is) c h t =
    run-accepted is (worker_round c) (worker_round-IsReady c h) t.1
    ∙ ap (λ (l : List HidEvent). l ++ others (events_of is)) (worker_round-accepted c h)
