-- ===== src/Hid/Ch9329/Backend/Reset.antt =====
-- What a reset and a shutdown leave behind.
use one_kvm_stream_box.Base.{
  ℕ, ◌≡◌, ◌≢◌, true, false, ◌&&◌, none, List, [], ◌∷◌, ◌++◌, append_assoc, arith,
}
use one_kvm_stream_box.Hid.Report.{to_bytes, clear}
use one_kvm_stream_box.Hid.Ch9329.Backend.{
  WorkerCommand, packet, reset_state, shutdown, Backend, done, failed, worker_not_running,
  enqueue_command, reset_keyboard, reset_mouse, ignore, send_media_key, reset, shut_down,
}
use one_kvm_stream_box.Hid.Ch9329.Runtime.{status-closed}

-- The three packets that release everything, in the order in which `reset` queues them.
abbrev pub release_packets : ℕ → List WorkerCommand
release_packets reserved =
    packet 0x02 (0 ∷ reserved ∷ 0 ∷ 0 ∷ 0 ∷ 0 ∷ 0 ∷ 0 ∷ [])
    ∷ packet 0x04 (0x02 ∷ 0 ∷ 0 ∷ 0 ∷ 0 ∷ 0 ∷ 0 ∷ [])
    ∷ packet 0x03 (0x02 ∷ 0 ∷ 0 ∷ 0 ∷ [])
    ∷ []

-- With a live worker, `reset` succeeds: no key, modifier or button is held any more, the position is
-- the origin in absolute mode, and behind the commands that were queued stand, in this order, a
-- keyboard report with no key, an absolute mouse report with no button, and the release of the media
-- keys.
pub reset_lem :
    (b : Backend)
    → b.started ≡ true
    → b.alive ≡ true
    → reset b ≡ (
      record b {
        queue = b.queue ++ release_packets b.keyboard_state.reserved;
        keyboard_state = clear b.keyboard_state;
        mouse_buttons = 0;
        last_abs_x = 0;
        last_abs_y = 0;
        relative_mouse_active = false;
      },
      done,
    )
unfolding reset reset_keyboard reset_mouse ignore send_media_key enqueue_command to_bytes clear
reset_lem b hs ha = ground (
  arith,
  append_assoc b.queue
      (packet 0x02 (0 ∷ b.keyboard_state.reserved ∷ 0 ∷ 0 ∷ 0 ∷ 0 ∷ 0 ∷ 0 ∷ []) ∷ [])
      (packet 0x04 (0x02 ∷ 0 ∷ 0 ∷ 0 ∷ 0 ∷ 0 ∷ 0 ∷ []) ∷ []),
  append_assoc b.queue
      (packet 0x02 (0 ∷ b.keyboard_state.reserved ∷ 0 ∷ 0 ∷ 0 ∷ 0 ∷ 0 ∷ 0 ∷ [])
        ∷ packet 0x04 (0x02 ∷ 0 ∷ 0 ∷ 0 ∷ 0 ∷ 0 ∷ 0 ∷ [])
        ∷ [])
      (packet 0x03 (0x02 ∷ 0 ∷ 0 ∷ 0 ∷ []) ∷ []),
)

-- With no live worker, `reset` fails after it has cleared the keyboard state: nothing is queued, and
-- the mouse buttons and the position are left as they were.
pub reset_without_worker :
    (b : Backend)
    → (b.started && b.alive) ≡ false
    → ((reset b).1 ≢ done)
      × ((reset b).0.queue ≡ b.queue)
      × ((reset b).0.keyboard_state ≡ clear b.keyboard_state)
      × ((reset b).0.mouse_buttons ≡ b.mouse_buttons)
      × ((reset b).0.last_abs_x ≡ b.last_abs_x)
unfolding reset reset_keyboard enqueue_command
reset_without_worker b h = ground arith

-- `shutdown` leaves a live worker two commands, to release everything and to stop, and the backend
-- without a worker: offline, not initialised and with no error, so every later command is refused.
pub shut_down_lem :
    (b : Backend) (c : WorkerCommand)
    → b.started ≡ true
    → b.alive ≡ true
    → ((shut_down b).0.queue ≡ b.queue ++ (reset_state ∷ shutdown ∷ []))
      × ((shut_down b).0.runtime.online ≡ false)
      × ((shut_down b).0.runtime.initialized ≡ false)
      × ((shut_down b).0.runtime.last_error ≡ none)
      × ((enqueue_command c (shut_down b).0).1 ≡ failed worker_not_running)
unfolding shut_down enqueue_command
shut_down_lem b c hs ha =
    ground (arith, append_assoc b.queue (reset_state ∷ []) (shutdown ∷ []), status-closed b.runtime)
