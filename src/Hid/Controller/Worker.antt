-- ===== src/Hid/Controller/Worker.antt =====
-- What a round of the worker does with the events that are not moves.
use one_kvm_stream_box.Base.{
  ◌≡◌, refl, sym, ap, ◌∙◌, inl, inr, Bool, true, false, not, Option, none, some, List, [], ◌∷◌,
  ◌++◌, append-nil, append_assoc, if◌then◌else◌, Bool-cases,
}
use one_kvm_stream_box.Hid.Event.{MouseEvent}
use one_kvm_stream_box.Hid.Controller.{
  HidEvent, mouse, HidController, process_hid_event, process_move, flush_move, round_of,
  worker_round, is_move,
}

abbrev pub is_other : HidEvent → Bool
is_other (mouse e) = not (is_move e.event_type)
is_other _ = true

-- The events that are not moves.
unfoldable pub others : List HidEvent → List HidEvent
others [] = []
others (e ∷ es) = if is_other e then e ∷ others es else others es

pub others-append : (es fs : List HidEvent) → others (es ++ fs) ≡ others es ++ others fs
unfolding others
others-append [] fs = refl
others-append (e ∷ es) fs = elim (Bool-cases (is_other e)) [
  | inl other ↦ rw other (ap (λ (l : List HidEvent). e ∷ l) (others-append es fs))
  | inr skipped ↦ rw skipped (others-append es fs)
]

-- A parked event is a move.
abbrev pub IsParked : Option MouseEvent → Type 0
IsParked none = Unit
IsParked (some m) = is_move m.event_type ≡ true

-- A controller with a backend and a worker.
pub record IsReady (c : HidController) : Type 0 where
  pub available : c.backend_available ≡ true
  pub open_queue : c.closed ≡ false
  pub parked : IsParked c.pending_move

-- Those that the backend has been given, and those that wait.
abbrev pub accepted : HidController → List HidEvent
accepted c = others c.processed ++ others c.queue

process-others :
    (e : HidEvent) (c : HidController)
    → others (process_hid_event e c).processed ≡ others c.processed ++ others (e ∷ [])
unfolding process_hid_event
process-others e c = others-append c.processed (e ∷ [])

-- What a flush does, by the flag and the place that it finds.
abbrev pub flushed : Bool → Option MouseEvent → HidController → HidController
flushed flag parked c =
    if flag
    then process_move parked (record c { pending_move_flag = false; pending_move = none })
    else c

flushed-others :
    (flag : Bool) (p : Option MouseEvent) (c : HidController)
    → IsParked p
    → others (flushed flag p c).processed ≡ others c.processed
unfolding process_move process_hid_event others
flushed-others false p c h = refl
flushed-others true none c h = refl
flushed-others true (some m) c h =
    others-append c.processed (mouse m ∷ [])
    ∙ ap (λ (b : Bool). others c.processed ++ (if not b then mouse m ∷ [] else [])) h
    ∙ append-nil (others c.processed)

pub flushed-queue :
    (flag : Bool) (p : Option MouseEvent) (c : HidController) → (flushed flag p c).queue ≡ c.queue
unfolding process_move process_hid_event
flushed-queue false p c = refl
flushed-queue true none c = refl
flushed-queue true (some m) c = refl

flushed-IsReady :
    (flag : Bool) (p : Option MouseEvent) (c : HidController)
    → IsReady c
    → IsReady (flushed flag p c)
unfolding process_move process_hid_event
flushed-IsReady false p c h = h
flushed-IsReady true none c h = record {
  available = h.available;
  open_queue = h.open_queue;
  parked = tt;
}
flushed-IsReady true (some m) c h = record {
  available = h.available;
  open_queue = h.open_queue;
  parked = tt;
}

-- A round of the worker, by the queue that it finds.
round_of-accepted :
    (q : List HidEvent) (c : HidController)
    → c.queue ≡ q
    → IsReady c
    → accepted (round_of q c) ≡ accepted c
unfolding round_of flush_move process_hid_event
round_of-accepted [] c hq h = refl
round_of-accepted (e ∷ q) c hq h =
    let d : HidController = process_hid_event e (record c { queue = q }) in
    let moved = flushed-others c.pending_move_flag c.pending_move d h.parked in
    let kept = flushed-queue c.pending_move_flag c.pending_move d in
    ap (λ (l : List HidEvent). others l ++ others (flush_move d).queue) refl
    ∙ ap (λ (l : List HidEvent). l ++ others (flush_move d).queue)
        (moved ∙ others-append c.processed (e ∷ []))
    ∙ ap (λ (l : List HidEvent). (others c.processed ++ others (e ∷ [])) ++ others l) kept
    ∙ append_assoc (others c.processed) (others (e ∷ [])) (others q)
    ∙ ap (λ (l : List HidEvent). others c.processed ++ l)
        (sym (others-append (e ∷ []) q) ∙ ap others (sym hq))

pub worker_round-accepted : (c : HidController) → IsReady c → accepted (worker_round c) ≡ accepted c
unfolding worker_round
worker_round-accepted c h = round_of-accepted c.queue c refl h

round_of-IsReady : (q : List HidEvent) (c : HidController) → IsReady c → IsReady (round_of q c)
unfolding round_of flush_move process_hid_event
round_of-IsReady [] c h = h
round_of-IsReady (e ∷ q) c h =
    flushed-IsReady c.pending_move_flag c.pending_move
      (process_hid_event e (record c { queue = q }))
      (record { available = h.available; open_queue = h.open_queue; parked = h.parked })

pub worker_round-IsReady : (c : HidController) → IsReady c → IsReady (worker_round c)
unfolding worker_round
worker_round-IsReady c h = round_of-IsReady c.queue c h
