-- ===== src/Hid/Ch9329/Backend.antt =====
-- src/hid/ch9329.rs, `Ch9329Backend`: the calls of a client. A call changes the backend's own state
-- and queues commands for the worker thread; `queue` is what the channel has taken, oldest first. The
-- state behind each mutex and atomic is a field; the calls are run one at a time, and what the worker
-- does to the runtime status is not part of this file.
pub mod Invariant
pub mod Runs
pub mod Buttons
pub mod Reset
mod Examples
use Prim.Native.String.{String}
use one_kvm_stream_box.Base.{
  ℕ, zero, ◌+◌, ◌-◌, ◌*◌, ◌/◌, Bool, true, false, Option, none, some, List, [], ◌∷◌, ◌++◌, ltb,
  ◌||◌, if◌then◌else◌, length, bit_and, bit_or, u8, u16,
}
use one_kvm_stream_box.Base.Int.{ℤ, pos, negsuc, wrap, clamp, pos_part}
use one_kvm_stream_box.Hid.Keyboard.{CanonicalKey, to_hid_usage, is_modifier, modifier_bit}
use one_kvm_stream_box.Hid.Event.{
  KeyEventType, KeyboardEvent, MouseButton, MouseEventType, MouseEvent, to_hid_byte, to_hid_bit,
}
use one_kvm_stream_box.Hid.Report.{
  KeyboardReport, empty_report, to_bytes, add_key, remove_key, clear,
}
use one_kvm_stream_box.Hid.Ch9329.Runtime.{
  RuntimeState, set_error, set_offline, set_initialized, clear_error,
}

pub data WorkerCommand : Type 0 where
  packet : ℕ → List ℕ → WorkerCommand
  reset_state shutdown : WorkerCommand

-- `started`: `worker_tx` holds a sender. `alive`: the worker has not dropped the receiver.
pub record Backend : Type 0 where
  pub started : Bool
  pub alive : Bool
  pub queue : List WorkerCommand
  pub keyboard_state : KeyboardReport
  pub mouse_buttons : ℕ
  pub last_abs_x : ℕ
  pub last_abs_y : ℕ
  pub relative_mouse_active : Bool
  pub runtime : RuntimeState

pub data BackendError : Type 0 where
  worker_not_running worker_stopped invalid_media_length : BackendError

pub data Outcome : Type 0 where
  done : Outcome
  failed : BackendError → Outcome

-- A call: the state that it leaves, and its result. After an error the rest is not run.
abbrev pub Call : Type 0
Call = Backend → Backend × Outcome

infixl 5 ◌>>◌
abbrev pub ◌>>◌ : Call → Call → Call
◌>>◌ m k b = let (b', r) = m b in elim r [ done ↦ k b' | failed e ↦ (b', failed e) ]

unfoldable pub enqueue_command : WorkerCommand → Call
enqueue_command command b =
    if b.started
    then (if b.alive then (record b { queue = b.queue ++ (command ∷ []) }, done) else (
      record b { runtime = set_error "CH9329 worker stopped" "worker_stopped" b.runtime },
      failed worker_stopped,
    ))
    else (
      record b { runtime = set_error "CH9329 worker is not running" "worker_stopped" b.runtime },
      failed worker_not_running,
    )

abbrev pub send_packet : ℕ → List ℕ → Call
send_packet cmd payload = enqueue_command (packet cmd payload)

-- SEND_KB_GENERAL_DATA
abbrev pub send_keyboard_report : KeyboardReport → Call
send_keyboard_report report = send_packet 0x02 (to_bytes report)

-- SEND_KB_MEDIA_DATA
unfoldable pub send_media_key : List ℕ → Call
send_media_key payload b =
    if ltb (length payload) 2 || ltb 4 (length payload)
    then (b, failed invalid_media_length)
    else send_packet 0x03 payload b

abbrev pub release_media_keys : Call
release_media_keys = send_media_key (0x02 ∷ 0x00 ∷ 0x00 ∷ 0x00 ∷ [])

-- SEND_MS_REL_DATA
abbrev pub send_mouse_relative : ℕ → ℤ → ℤ → ℤ → Call
send_mouse_relative buttons dx dy wheel =
    send_packet 0x05 (0x01 ∷ buttons ∷ wrap 256 dx ∷ wrap 256 dy ∷ wrap 256 wheel ∷ [])

-- SEND_MS_ABS_DATA
abbrev pub send_mouse_absolute : ℕ → ℕ → ℕ → ℤ → Call
send_mouse_absolute buttons x y wheel = send_packet 0x04 (
    0x02
    ∷ buttons
    ∷ u8 (bit_and x 0xFF)
    ∷ u8 (x / 256)
    ∷ u8 (bit_and y 0xFF)
    ∷ u8 (y / 256)
    ∷ wrap 256 wheel
    ∷ [])

-- `state.modifiers |= bit`, or `&= !bit` on a `u8`.
abbrev pub change_bit : KeyEventType → ℕ → ℕ → ℕ
change_bit KeyEventType.down bit byte = bit_or byte bit
change_bit KeyEventType.up bit byte = bit_and byte (255 - bit)

abbrev change_modifiers : Option ℕ → KeyEventType → KeyboardReport → KeyboardReport
change_modifiers none t r = r
change_modifiers (some bit) t r = record r { modifiers = change_bit t bit r.modifiers }

abbrev change_keys : KeyEventType → ℕ → KeyboardReport → KeyboardReport
change_keys KeyEventType.down key r = (add_key r key).0
change_keys KeyEventType.up key r = remove_key r key

-- The report after a keyboard event.
unfoldable pub update_report : KeyboardEvent → KeyboardReport → KeyboardReport
update_report e r =
    if is_modifier e.key
    then change_modifiers (modifier_bit e.key) e.event_type r
    else change_keys e.event_type (to_hid_usage e.key)
        (record r { modifiers = to_hid_byte e.modifiers })

unfoldable pub send_keyboard : KeyboardEvent → Call
send_keyboard e b =
    let report = update_report e b.keyboard_state in
    send_keyboard_report report (record b { keyboard_state = report })

-- `(event.x.clamp(0, 32767) as u32) * CH9329_MOUSE_RESOLUTION / 32768`, as a `u16`.
unfoldable pub to_ch9329 : ℤ → ℕ
to_ch9329 x = u16 (pos_part (clamp x (pos 0) (pos 32767)) * 4096 / 32768)

-- A button event: in the mode of the last movement, at the last position.
abbrev send_buttons : ℕ → ℤ → Call
send_buttons buttons wheel b =
    if b.relative_mouse_active
    then send_mouse_relative buttons (pos 0) (pos 0) wheel b
    else send_mouse_absolute buttons b.last_abs_x b.last_abs_y wheel b

abbrev press_or_release : KeyEventType → Option MouseButton → Call
press_or_release t none b = (b, done)
press_or_release t (some button) b =
    let buttons = change_bit t (to_hid_bit button) b.mouse_buttons in
    send_buttons buttons (pos 0) (record b { mouse_buttons = buttons })

send_mouse_of : MouseEventType → MouseEvent → Call
send_mouse_of MouseEventType.move e b =
    send_mouse_relative b.mouse_buttons (clamp e.x (negsuc 126) (pos 127))
      (clamp e.y (negsuc 126) (pos 127)) (pos 0) (record b { relative_mouse_active = true })
send_mouse_of MouseEventType.move_abs e b =
    send_mouse_absolute b.mouse_buttons (to_ch9329 e.x) (to_ch9329 e.y) (pos 0) (record b {
      relative_mouse_active = false;
      last_abs_x = to_ch9329 e.x;
      last_abs_y = to_ch9329 e.y;
    })
send_mouse_of MouseEventType.down e b = press_or_release KeyEventType.down e.button b
send_mouse_of MouseEventType.up e b = press_or_release KeyEventType.up e.button b
send_mouse_of MouseEventType.scroll e b = send_buttons b.mouse_buttons e.scroll b

unfoldable pub send_mouse : MouseEvent → Call
unfolding send_mouse_of
send_mouse e b = send_mouse_of e.event_type e b

reset_keyboard : Call
reset_keyboard b =
    let report = clear b.keyboard_state in
    send_keyboard_report report (record b { keyboard_state = report })

reset_mouse : Call
reset_mouse b =
    send_mouse_absolute 0 0 0 (pos 0) (record b {
      mouse_buttons = 0;
      last_abs_x = 0;
      last_abs_y = 0;
      relative_mouse_active = false;
    })

-- `let _ = self.release_media_keys();`
ignore : Call → Call
ignore m b = ((m b).0, done)

unfoldable pub reset : Call
unfolding reset_keyboard reset_mouse ignore
reset = reset_keyboard >> reset_mouse >> ignore release_media_keys

-- The worker is joined after the command that stops it.
unfoldable pub shut_down : Call
shut_down b =
    let b₁ = (enqueue_command reset_state b).0 in
    let b₂ = if b₁.started then (enqueue_command shutdown b₁).0 else b₁ in
    (
      record b₂ {
        started = false;
        alive = false;
        runtime = clear_error (set_initialized false (set_offline b₂.runtime));
      },
      done,
    )

-- A new backend, before `init` has started its worker.
abbrev pub fresh : RuntimeState → Backend
fresh runtime = record {
  started = false;
  alive = false;
  queue = [];
  keyboard_state = empty_report;
  mouse_buttons = 0;
  last_abs_x = 0;
  last_abs_y = 0;
  relative_mouse_active = false;
  runtime = runtime;
}

-- The client's calls that carry input.
pub data Input : Type 0 where
  key_input : KeyboardEvent → Input
  mouse_input : MouseEvent → Input
  media_input : List ℕ → Input
  reset_input : Input

unfoldable pub send_input : Input → Call
send_input (key_input e) b = send_keyboard e b
send_input (mouse_input e) b = send_mouse e b
send_input (media_input payload) b = send_media_key payload b
send_input reset_input b = reset b

-- A history of calls; what each returns does not stop the client.
unfoldable pub run : Backend → List Input → Backend
run b [] = b
run b (i ∷ is) = run (send_input i b).0 is
