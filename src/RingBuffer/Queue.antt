-- ===== src/RingBuffer/Queue.antt =====
-- A ring buffer of kernel/include/ring_buffer.h as a queue.
use native.Mathlib.Nat.{mod-eq_of_lt, mod-lt, mod-eq-sub-mod, mod-add-mod}
use mathlib.Core.Path.{subst}
use project_islay.Prelude.{
  ℕ, ◌+◌, ◌-◌, ◌%◌, ◌≤◌, ◌<◌, ◌≡◌, ◌≢◌, sym, ap, ◌∙◌, List, [], ◌∷◌, ◌++◌, length, length-append,
  update, update_at, update_apart, false, arith, dec_lt, suc,
}
use project_islay.RingBuffer.{
  RingBuffer, size_mod, ring_buff_full, ring_buffer_push, ring_buffer_pop,
}

wrap-ne : (cap i k : ℕ) → i < cap → 0 < k → k < cap → i ≢ (i + k) % cap
wrap-ne cap i k h pos below e = elim (dec_lt (i + k) cap) [
  | yes within ↦ omega (arith, e, mod-eq_of_lt within)
  | no over ↦
      let r : (i + k) % cap ≡ (i + k - cap) % cap = mod-eq-sub-mod (omega (arith, over)) in
      let s : (i + k - cap) % cap ≡ i + k - cap = mod-eq_of_lt (omega (arith, h, below)) in
      absurd (omega (arith, e ∙ r ∙ s, over, below))
]

module _ {ℓ} {A : Type ℓ} where
  -- From index `i` on, the array holds the elements, going round at `cap`.
  abbrev pub Holds : (ℕ → A) → ℕ → ℕ → List A → Type ℓ
  Holds f cap i [] = Unit
  Holds f cap i (x ∷ xs) = (f i ≡ x) × Holds f cap ((i + 1) % cap) xs

  -- The buffer holds the elements, the oldest first.
  pub record IsQueue (b : RingBuffer A) (xs : List A) : Type ℓ where
    pub counted : b.size ≡ length xs
    pub bound : length xs ≤ b.cap
    pub small : b.cap < size_mod
    pub read : b.read_idx < b.cap
    pub write : b.write_idx ≡ (b.read_idx + length xs) % b.cap
    pub held : Holds b.array b.cap b.read_idx xs

  pub Holds-push :
      (f : ℕ → A) (cap i : ℕ) (v : A) (xs : List A)
      → i < cap
      → length xs < cap
      → Holds f cap i xs
      → Holds (update f ((i + length xs) % cap) v) cap i (xs ++ v ∷ [])
  Holds-push f cap i v [] h room held =
      let e : (i + 0) % cap ≡ i = ap (λ k. k % cap) (omega arith) ∙ mod-eq_of_lt h in
      (ap (λ k. update f k v i) e ∙ update_at f i v, tt)
  Holds-push f cap i v (x ∷ xs) h room (at, held) =
      let w = (i + suc (length xs)) % cap in
      let far : i ≢ w = wrap-ne cap i (suc (length xs)) h (omega arith) room in
      let e : ((i + 1) % cap + length xs) % cap ≡ w =
        mod-add-mod (i + 1) cap (length xs) ∙ ap (λ k. k % cap) (omega arith) in
      (
        update_apart f w i v far ∙ at,
        subst (λ k. Holds (update f k v) cap ((i + 1) % cap) (xs ++ v ∷ [])) e
            (Holds-push f cap ((i + 1) % cap) v xs (mod-lt (i + 1) (omega (arith, h)))
              (omega (arith, room)) held),
      )

  -- A push on a buffer that is not full puts the element at the end of the queue.
  pub push-IsQueue :
      (b : RingBuffer A) (xs : List A) (v : A)
      → IsQueue b xs
      → ring_buff_full b ≡ false
      → IsQueue (ring_buffer_push b v) (xs ++ v ∷ [])
  unfolding ring_buffer_push
  push-IsQueue b xs v q open_end =
      let n = length xs in
      let room : n < b.cap = ground (arith, q.counted, q.bound) in
      let len = length-append xs (v ∷ []) in
      record {
        counted = omega (arith, q.counted, len, room, q.small);
        bound = omega (arith, len, room);
        small = q.small;
        read = q.read;
        write =
            ap (λ k. (k + 1) % b.cap) q.write
            ∙ mod-add-mod (b.read_idx + n) b.cap 1
            ∙ ap (λ k. k % b.cap) (omega (arith, len));
        held =
            subst (λ k. Holds (update b.array k v) b.cap b.read_idx (xs ++ v ∷ [])) (sym q.write)
              (Holds-push b.array b.cap b.read_idx v xs q.read room q.held);
      }

  -- A pop on a buffer that is not empty takes the oldest element.
  pub pop-IsQueue :
      (b : RingBuffer A) (x : A) (xs : List A)
      → IsQueue b (x ∷ xs)
      → ((ring_buffer_pop b).0 ≡ x) × IsQueue (ring_buffer_pop b).1 xs
  unfolding ring_buffer_pop
  pop-IsQueue b x xs q = (
    q.held.0,
    record {
      counted = omega (arith, q.counted, q.bound, q.small);
      bound = omega (arith, q.bound);
      small = q.small;
      read = mod-lt (b.read_idx + 1) (omega (arith, q.read));
      write =
          q.write
          ∙ sym
              (mod-add-mod (b.read_idx + 1) b.cap (length xs) ∙ ap (λ k. k % b.cap) (omega arith));
      held = q.held.1;
    },
  )
