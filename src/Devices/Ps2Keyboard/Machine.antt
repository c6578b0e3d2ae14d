-- ===== src/Devices/Ps2Keyboard/Machine.antt =====
-- The state machine of kernel/devices/keyboard/ps2_keyboard.c, and its queue of commands.
use mathlib.Core.Path.{subst}
use project_islay.Prelude.{
  ℕ, zero, suc, ◌+◌, ◌-◌, ◌^◌, ◌≤◌, ◌<◌, ◌≡◌, ◌⊎◌, inl, inr, refl, sym, ◌∙◌, Bool, true, false,
  none, some, List, [], ◌∷◌, ◌++◌, ◌==◌, leb, get_or, if◌then◌else◌, arith, Returns, returns,
  ==-true, ==-false, length, length-append, ℕ_discrete,
}
use project_islay.RingBuffer.{ring_buff_full, ring_buffer_push, ring_buffer_pop}
use project_islay.RingBuffer.Queue.{IsQueue, push-IsQueue, pop-IsQueue}
use project_islay.Devices.Ps2Keyboard.{
  Ps2Keyboard, in_initial, in_extended, in_print_screen, ps2_keyboard_send, send_all, regular_key,
  extended_key, keyboard_send_key, receive_ack, send_first, ps2_send_command,
}
use project_islay.Devices.Ps2Keyboard.Tables.{set1_to_keycode}

initial_state : (kbd : Ps2Keyboard) (c : ℕ) → kbd.state ≡ 0 → (in_initial kbd c).state ≤ 8
unfolding in_initial receive_ack send_first regular_key keyboard_send_key
initial_state kbd c z = ground arith

extended_state : (kbd : Ps2Keyboard) (c : ℕ) → (in_extended kbd c).state ≤ 8
unfolding in_extended extended_key keyboard_send_key
extended_state kbd c = ground arith

print_screen_state : (kbd : Ps2Keyboard) (c : ℕ) → (in_print_screen kbd c).state ≤ 8
unfolding in_print_screen keyboard_send_key
print_screen_state kbd c = ground arith

expect_state : (next : ℕ) (hit : Bool) → next ≤ 8 → (if hit then next else 0) ≤ 8
expect_state next hit h = ground arith

-- What a scan code does in each state.
abbrev Machine : Ps2Keyboard → ℕ → Type 0
Machine kbd c =
    ((kbd.state ≡ 8) × (ps2_keyboard_send kbd c ≡ none))
    ⊎ ((kbd.state < 8) × Returns (λ k. k.state ≤ 8) (ps2_keyboard_send kbd c))

state_cases : (n : ℕ) (kbd : Ps2Keyboard) (c : ℕ) → kbd.state ≡ n → n ≤ 8 → Machine kbd c
unfolding ps2_keyboard_send
state_cases zero kbd c z h =
    inr (omega (arith, z), rw z (returns (initial_state (record kbd { state = 0 }) c refl)))
state_cases (suc zero) kbd c z h =
    inr (omega (arith, z), rw z (returns (extended_state (record kbd { state = 1 }) c)))
state_cases (suc (suc zero)) kbd c z h =
    inr (omega (arith, z), rw z (returns (expect_state 3 (c == 0xe0) (omega arith))))
state_cases (suc (suc (suc zero))) kbd c z h =
    inr (omega (arith, z), rw z (returns (print_screen_state (record kbd { state = 3 }) c)))
state_cases (suc (suc (suc (suc zero)))) kbd c z h =
    inr (omega (arith, z), rw z (returns (expect_state 5 (c == 0x1d) (omega arith))))
state_cases (suc (suc (suc (suc (suc zero))))) kbd c z h =
    inr (omega (arith, z), rw z (returns (expect_state 6 (c == 0x45) (omega arith))))
state_cases (suc (suc (suc (suc (suc (suc zero)))))) kbd c z h =
    inr (omega (arith, z), rw z (returns (expect_state 7 (c == 0xe1) (omega arith))))
state_cases (suc (suc (suc (suc (suc (suc (suc zero))))))) kbd c z h =
    inr (omega (arith, z), rw z (returns (expect_state 8 (c == 0x9d) (omega arith))))
state_cases (suc (suc (suc (suc (suc (suc (suc (suc zero)))))))) kbd c z h = inl (z, rw z refl)
state_cases (suc (suc (suc (suc (suc (suc (suc (suc (suc n))))))))) kbd c z h = absurd (omega arith)

-- No scan code leads out of the states 0 to 8: below 8 the handler returns, and in state 8 it panics.
pub ps2_keyboard_send-Machine :
    (kbd : Ps2Keyboard) (c : ℕ)
    → kbd.state ≤ 8
    → ((kbd.state ≡ 8) × (ps2_keyboard_send kbd c ≡ none))
      ⊎ ((kbd.state < 8) × Returns (λ k. k.state ≤ 8) (ps2_keyboard_send kbd c))
ps2_keyboard_send-Machine kbd c h = state_cases kbd.state kbd c refl h

-- The scan codes of the pause key, from the initial state, panic on the last.
pub pause_panics :
    (kbd : Ps2Keyboard) (c : ℕ)
    → kbd.state ≡ 0
    → send_all kbd (0xe1 ∷ 0x1d ∷ 0x45 ∷ 0xe1 ∷ 0x9d ∷ c ∷ []) ≡ none
unfolding send_all ps2_keyboard_send in_initial
pause_panics kbd c z = rw z

-- In the initial state, a key of the first 88 sends the same keycode when it is pressed and when it is released,
-- with the highest bit set then.
pub press_release :
    (kbd : Ps2Keyboard) (c : ℕ)
    → kbd.state ≡ 0
    → c < 0x58
    → let k = get_or set1_to_keycode c 0 in
      (ps2_keyboard_send kbd c ≡ some (record kbd { state = 0; events = k ∷ kbd.events }))
      × (ps2_keyboard_send kbd (c + 0x80)
          ≡ some (record kbd { state = 0; events = (2 ^ 15 + k) ∷ kbd.events }))
unfolding ps2_keyboard_send in_initial regular_key keyboard_send_key
press_release kbd c z h =
    let d = c + 0x80 in
    let low : leb d 0x58 ≡ false = ground arith in
    let high : leb 0x80 d ≡ true = ground arith in
    let top : leb d 0xd7 ≡ true = ground arith in
    let back : d - 0x80 ≡ c = omega arith in
    let pressed : leb c 0x58 ≡ true = ground arith in
    (
      rw
          (
            z,
            ==-false c 0xe0 (omega arith),
            ==-false c 0xe1 (omega arith),
            ==-false c 0xfa (omega arith),
            ==-false c 0xfe (omega arith),
            pressed,
          )
          refl,
      rw
          (
            z,
            ==-false d 0xe0 (omega arith),
            ==-false d 0xe1 (omega arith),
            ==-false d 0xfa (omega arith),
            ==-false d 0xfe (omega arith),
            low,
            high,
            top,
            back,
          )
          refl,
    )

-- what the keyboard is to be sent after an answer: the first command that is left, if any
abbrev pub next_sent : List ℕ → List ℕ → List ℕ
next_sent [] sent = sent
next_sent (x ∷ xs) sent = x ∷ sent

send_first_lem :
    (kbd : Ps2Keyboard) (xs : List ℕ)
    → IsQueue kbd.cmd_buffer xs
    → (send_first kbd).sent ≡ next_sent xs kbd.sent
unfolding send_first
send_first_lem kbd [] q = rw (==-true kbd.cmd_buffer.size 0 q.counted) refl
send_first_lem kbd (x ∷ xs) q =
    rw (==-false kbd.cmd_buffer.size 0 (λ e. absurd (omega (arith, e, q.counted))), q.held.0) refl

send_first_rest :
    (kbd : Ps2Keyboard)
    → ((send_first kbd).cmd_buffer ≡ kbd.cmd_buffer) × ((send_first kbd).state ≡ kbd.state)
unfolding send_first
send_first_rest kbd = ground arith

on_ack : (kbd : Ps2Keyboard) → kbd.state ≡ 0 → ps2_keyboard_send kbd 0xfa ≡ some (receive_ack kbd)
unfolding ps2_keyboard_send in_initial
on_ack kbd z = rw (==-true kbd.state 0 z) refl

receive_ack-IsQueue :
    (kbd : Ps2Keyboard) (x : ℕ) (xs : List ℕ)
    → IsQueue kbd.cmd_buffer (x ∷ xs)
    → IsQueue (receive_ack kbd).cmd_buffer xs
      × ((receive_ack kbd).sent ≡ next_sent xs kbd.sent)
      × ((receive_ack kbd).state ≡ kbd.state)
unfolding receive_ack
receive_ack-IsQueue kbd x xs q =
    let k = record kbd { cmd_buffer = (ring_buffer_pop kbd.cmd_buffer).1 } in
    let p = (pop-IsQueue kbd.cmd_buffer x xs q).1 in
    let r = send_first_rest k in (subst (λ c. IsQueue c xs) (sym r.0) p, send_first_lem k xs p, r.1)

-- In the initial state, an acknowledgement takes the command it is for, which is the first of the buffer, out of
-- the buffer and sends the next, if there is one.
ack-IsQueue :
    (kbd : Ps2Keyboard) (x : ℕ) (xs : List ℕ)
    → kbd.state ≡ 0
    → IsQueue kbd.cmd_buffer (x ∷ xs)
    → Returns
        (λ k. IsQueue k.cmd_buffer xs × (k.sent ≡ next_sent xs kbd.sent) × (k.state ≡ 0))
        (ps2_keyboard_send kbd 0xfa)
ack-IsQueue kbd x xs z q =
    let r = receive_ack-IsQueue kbd x xs q in rw (on_ack kbd z) (returns (r.0, r.1, r.2 ∙ z))

-- A command is put at the end of a buffer that is not full, and sent at once if it is the only one.
send_command-IsQueue :
    (kbd : Ps2Keyboard) (xs : List ℕ) (byte : ℕ)
    → IsQueue kbd.cmd_buffer xs
    → ring_buff_full kbd.cmd_buffer ≡ false
    → IsQueue (ps2_send_command kbd byte).cmd_buffer (xs ++ byte ∷ [])
      × ((ps2_send_command kbd byte).sent ≡ (if length xs == 0 then byte ∷ kbd.sent else kbd.sent))
unfolding ps2_send_command
send_command-IsQueue kbd xs byte q room =
    let p = push-IsQueue kbd.cmd_buffer xs byte q room in
    let b = ring_buffer_push kbd.cmd_buffer byte in
    let n : b.size ≡ length xs + 1 = p.counted ∙ omega (arith, length-append xs (byte ∷ [])) in
    elim (ℕ_discrete (length xs) 0) [
      | yes e ↦ rw (room, ==-true b.size 1 (omega (arith, n, e)), ==-true (length xs) 0 e) (p, refl)
      | no m ↦
          rw (room, ==-false b.size 1 (λ k. m (omega (arith, n, k))), ==-false (length xs) 0 m)
            (p, refl)
    ]
