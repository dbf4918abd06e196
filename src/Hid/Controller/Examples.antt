-- ===== src/Hid/Controller/Examples.antt =====
-- Runs of a controller of src/hid/mod.rs.
use one_kvm_stream_box.Base.{
  ℕ, ◌≡◌, refl, true, false, none, List, [], ◌∷◌, ◌++◌, arith, replicate, All, length-replicate,
}
use one_kvm_stream_box.Base.Int.{pos}
use one_kvm_stream_box.Hid.Event.{MouseEventType, MouseEvent}
use one_kvm_stream_box.Hid.Controller.{
  HidEvent, mouse, consumer, reset_all, HidController, send_mouse, Input, event, work, run,
}
use one_kvm_stream_box.Hid.Controller.Worker.{IsReady, others}
use one_kvm_stream_box.Hid.Controller.Fifo.{IsInTime, events_of, run-accepted}
use one_kvm_stream_box.Hid.Controller.Moves.{rounds, serving, move_overtakes}

abbrev move_to : ℕ → MouseEvent
move_to n = record {
  event_type = MouseEventType.move_abs;
  x = pos n;
  y = pos n;
  button = none;
  scroll = pos 0;
}

abbrev louder : HidEvent
louder = consumer (record { usage = 0xE9 })

abbrev quiet : HidController
quiet = serving [] none false []

abbrev inputs : List Input
inputs =
    event true louder ∷ event true (mouse (move_to 7)) ∷ work ∷ event true reset_all ∷ work ∷ []

quiet-IsReady : IsReady quiet
quiet-IsReady = record { available = refl; open_queue = refl; parked = tt }

inputs-IsInTime : All IsInTime inputs
inputs-IsInTime = (refl, (refl, (tt, (refl, (tt, tt)))))

run-accepted_example :
    others (run inputs quiet).processed ++ others (run inputs quiet).queue
    ≡ (others [] ++ others []) ++ others (events_of inputs)
run-accepted_example = run-accepted inputs quiet quiet-IsReady inputs-IsInTime

inputs-others : others (events_of inputs) ≡ louder ∷ reset_all ∷ []
unfolding others events_of
inputs-others = refl

abbrev old : List HidEvent
old = replicate 63 (mouse (move_to 1))

abbrev full_of_old : HidController
full_of_old = serving (mouse (move_to 1) ∷ old) none false []

-- The pointer is left at 1, the place of the oldest moves, though it was moved to 2 last.
move_overtakes_example :
    (rounds 64 (send_mouse true (move_to 2) full_of_old).0).processed
    ≡ mouse (move_to 1) ∷ mouse (move_to 2) ∷ old
move_overtakes_example =
    move_overtakes (mouse (move_to 1)) old [] none false true (move_to 2)
      (omega (arith, length-replicate 63 (mouse (move_to 1)))) refl
