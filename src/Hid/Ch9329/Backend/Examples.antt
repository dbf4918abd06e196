-- ===== src/Hid/Ch9329/Backend/Examples.antt =====
-- A backend with a live worker, and the theorems on it.
use one_kvm_stream_box.Base.{true, none, some, List, [], ◌∷◌, arith}
use one_kvm_stream_box.Base.Int.{pos}
use one_kvm_stream_box.Hid.Keyboard.{shift_left}
use one_kvm_stream_box.Hid.Event.{
  KeyEventType, KeyboardEvent, left, MouseEventType, MouseEvent, from_hid_byte,
}
use one_kvm_stream_box.Hid.Report.Keys.{empty-IsValid}
use one_kvm_stream_box.Hid.Ch9329.Backend.{
  Backend, fresh, Input, key_input, mouse_input, media_input, reset_input, run,
}
use one_kvm_stream_box.Hid.Ch9329.Runtime.{RuntimeState}
use one_kvm_stream_box.Hid.Ch9329.Backend.Invariant.{Inv}
use one_kvm_stream_box.Hid.Ch9329.Backend.Runs.{run-Inv}

abbrev online_runtime : RuntimeState
online_runtime = record { initialized = true; online = true; last_error = none; notified = 2 }

abbrev stopped : Backend
stopped = fresh online_runtime

abbrev running : Backend
running = record stopped { started = true; alive = true; mouse_buttons = 2 }

running-Inv : Inv running
running-Inv = record {
  report = empty-IsValid;
  buttons = omega arith;
  abs_x = omega arith;
  abs_y = omega arith;
  sendable = tt;
}

abbrev shift_press : KeyboardEvent
shift_press = record {
  event_type = KeyEventType.down;
  key = shift_left;
  modifiers = from_hid_byte 2;
}

abbrev left_press : MouseEvent
left_press = record {
  event_type = MouseEventType.down;
  x = pos 0;
  y = pos 0;
  button = some left;
  scroll = pos 0;
}

abbrev typing : List Input
typing =
    key_input shift_press ∷ mouse_input left_press ∷ media_input (2 ∷ 0 ∷ []) ∷ reset_input ∷ []

run-Inv_example : Inv (run running typing)
run-Inv_example = run-Inv typing running (omega arith) running-Inv
