-- ===== src/Hid/Controller/Moves.antt =====
-- Mouse moves that find the queue full, and the bound of the queue.
use one_kvm_stream_box.Base.{
  ℕ, zero, suc, ◌≡◌, sym, ap, ◌∙◌, Bool, true, false, Option, none, some, List, [], ◌∷◌, ◌++◌,
  append-nil, append_assoc, arith, length,
}
use one_kvm_stream_box.Hid.Event.{MouseEvent}
use one_kvm_stream_box.Hid.Controller.{
  queue_capacity, HidEvent, mouse, HidController, sent, process_hid_event, process_move, flush_move,
  worker_round, enqueue_mouse_move, is_move, send_mouse,
}

-- A number of rounds of the worker.
unfoldable pub rounds : ℕ → HidController → HidController
rounds zero c = c
rounds (suc n) c = rounds n (worker_round c)

-- A controller with a backend and an open queue.
abbrev pub serving : List HidEvent → Option MouseEvent → Bool → List HidEvent → HidController
serving q parked flag given = record {
  backend_available = true;
  closed = false;
  queue = q;
  pending_move = parked;
  pending_move_flag = flag;
  processed = given;
}

rounds-processed :
    (q given : List HidEvent) (parked : Option MouseEvent)
    → (rounds (length q) (serving q parked false given)).processed ≡ given ++ q
unfolding rounds worker_round flush_move process_hid_event
rounds-processed [] given parked = sym (append-nil given)
rounds-processed (e ∷ q) given parked =
    rounds-processed q (given ++ (e ∷ [])) parked ∙ append_assoc given (e ∷ []) q

park :
    (q given : List HidEvent) (parked : Option MouseEvent) (flag in_time : Bool) (m : MouseEvent)
    → length q ≡ queue_capacity
    → is_move m.event_type ≡ true
    → send_mouse in_time m (serving q parked flag given) ≡ (serving q (some m) true given, sent)
unfolding send_mouse enqueue_mouse_move
park q given parked flag in_time m full moves = ground (arith, full, moves)

-- A move that is sent when the queue is full reaches the backend once, ahead of all the events that
-- were queued before it but the first, and so of older moves, which the backend is given afterwards:
-- this is the order in which the worker has emptied the queue if nothing else is sent. A move that
-- was parked before is replaced.
pub move_overtakes :
    (e : HidEvent) (q given : List HidEvent) (parked : Option MouseEvent) (flag in_time : Bool)
    (m : MouseEvent)
    → length (e ∷ q) ≡ queue_capacity
    → is_move m.event_type ≡ true
    → (rounds queue_capacity (send_mouse in_time m (serving (e ∷ q) parked flag given)).0).processed
      ≡ given ++ (e ∷ mouse m ∷ q)
unfolding rounds worker_round flush_move process_hid_event process_move
move_overtakes e q given parked flag in_time m full moves =
    rw (park (e ∷ q) given parked flag in_time m full moves) (
      ap (λ (n : ℕ). (rounds n (serving (e ∷ q) (some m) true given)).processed) (sym full)
      ∙ rounds-processed q ((given ++ (e ∷ [])) ++ (mouse m ∷ [])) none
      ∙ append_assoc (given ++ (e ∷ [])) (mouse m ∷ []) q
      ∙ append_assoc given (e ∷ []) (mouse m ∷ q))
