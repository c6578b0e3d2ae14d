-- ===== src/RingBuffer.antt =====
-- kernel/include/ring_buffer.h: the macros on a ring buffer with elements of any type.
pub mod Queue
use project_islay.Prelude.{ℕ, ◌+◌, ◌-◌, ◌%◌, ◌^◌, Bool, ◌==◌, update}

-- `ring_buff_struct`
pub record RingBuffer {ℓ} (A : Type ℓ) : Type ℓ where
  pub size : ℕ
  pub read_idx : ℕ
  pub write_idx : ℕ
  pub cap : ℕ
  pub array : ℕ → A

-- `size_t`
abbrev pub size_mod : ℕ
size_mod = 2 ^ 32

module _ {ℓ} {A : Type ℓ} where
  -- `cap` is the number of the elements of the array
  unfoldable pub ring_buff_init : ℕ → RingBuffer A → RingBuffer A
  ring_buff_init cap b = record b { size = 0; read_idx = 0; write_idx = 0; cap = cap }

  abbrev pub ring_buff_empty : RingBuffer A → Bool
  ring_buff_empty b = b.size == 0

  abbrev pub ring_buff_full : RingBuffer A → Bool
  ring_buff_full b = b.size == b.cap

  abbrev pub ring_buff_first : RingBuffer A → A
  ring_buff_first b = b.array b.read_idx

  unfoldable pub ring_buffer_push : RingBuffer A → A → RingBuffer A
  ring_buffer_push b elem = record b {
    array = update b.array b.write_idx elem;
    write_idx = (b.write_idx + 1) % b.cap;
    size = (b.size + 1) % size_mod;
  }

  unfoldable pub ring_buffer_pop : RingBuffer A → A × RingBuffer A
  ring_buffer_pop b = (
    ring_buff_first b,
    record b { read_idx = (b.read_idx + 1) % b.cap; size = (b.size + size_mod - 1) % size_mod },
  )
