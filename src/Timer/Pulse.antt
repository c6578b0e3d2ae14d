-- ===== src/Timer/Pulse.antt =====
-- `timer_report_clock_pulse` of kernel/devices/timer.c runs the events that are due.
use mathlib.Core.List.{
  Mem, Perm, Permᴰ, perm_middle, mem-cons, mem-append, mem-cons_self, mem-cons_of_mem, not-mem-nil,
  append_assoc,
}
use mathlib.Core.List.Perm
use mathlib.Core.Logic.{∥∥₁_elim}
use mathlib.Core.Logic.Or
use mathlib.Core.Path.{subst}
use native.Mathlib.Bridge.{le_prop}
use native.Mathlib.Nat.{ℕ_set}
use project_islay.Prelude.{
  ℕ, zero, suc, ◌+◌, ◌%◌, ◌^◌, ◌≤◌, ◌<◌, ◌≡◌, refl, ap, ◌∙◌, false, List, [], ◌∷◌, ◌++◌, arith,
  length, length-take, take, leb, ltb, if◌then◌else◌, ◌&&◌, Returns, returns, Returns-bind,
  Bool-cases, inl, inr, ℕ_discrete,
}
use project_islay.Timer.{Event, Timer, stamp, Callback, run_events, timer_report_clock_pulse}
use project_islay.Timer.Order.{IsValid, items, root_least}
use project_islay.Timer.Extract.{Extracted, extract_min_element_lem}

abbrev is_due : ℕ → Event → ℕ
is_due now e = if leb e.timestamp_ns now then 1 else 0

-- how many of the events are due at `now`
abbrev pub due : ℕ → List Event → ℕ
due now [] = 0
due now (e ∷ es) = due now es + is_due now e

due-permᴰ : (now : ℕ) {a b : List Event} → Permᴰ a b → due now a ≡ due now b
due-permᴰ now Permᴰ.nil = refl
due-permᴰ now (Permᴰ.cons {l₁ = x} {l₂ = y} e p) = omega (arith, due-permᴰ now p, ap (is_due now) e)
due-permᴰ now (Permᴰ.swap e f) = omega (arith, ap (is_due now) e, ap (is_due now) f)
due-permᴰ now (Permᴰ.trans p q) = due-permᴰ now p ∙ due-permᴰ now q

due-perm : (now : ℕ) {a b : List Event} → Perm a b → due now a ≡ due now b
due-perm now p = ∥∥₁_elim p (ℕ_set _ _) (due-permᴰ now)

-- All events of the list are after `now`.
abbrev pub After : ℕ → List Event → Type 0
After now es = (e : Event) → Mem e es → now < e.timestamp_ns

due-append : (now : ℕ) (late es : List Event) → After now late → due now (late ++ es) ≡ due now es
due-append now [] es h = refl
due-append now (e ∷ late) es h =
    ground (arith, h e (mem-cons_self), due-append now late es (λ f m. h f (mem-cons_of_mem e m)))

-- A lower bound of the stored time stamps is one of the events in the queue.
le_of_mem :
    (n : ℕ) (a : List Event) (b : ℕ)
    → ((i : ℕ) → i < n → b ≤ stamp a i)
    → n ≤ length a
    → (e : Event) → Mem e (take n a)
    → b ≤ e.timestamp_ns
le_of_mem zero a b h f e m = absurd (not-mem-nil m)
le_of_mem (suc n) [] b h f e m = absurd (omega arith)
le_of_mem (suc n) (x ∷ a) b h f e m =
    Or.elim le_prop (mem-cons.0 m) (λ p. rw p (h 0 (omega arith)))
      (le_of_mem n a b (λ i q. h (suc i) (omega arith)) (omega arith) e)

-- On a valid queue no event is due before the root.
items_least :
    (t : Timer) → IsValid t → (e : Event) → Mem e (items t) → stamp t.array 0 ≤ e.timestamp_ns
items_least t v =
    le_of_mem t.size t.array (stamp t.array 0)
      (λ i p. root_least (suc i) t.array t.size i v.ordered (omega arith) p)
      (omega (arith, v.fits, v.stored))

-- `late` are the events that a callback registered: all after `now`, and the rest of the queue is kept.
pub record Kept (now : ℕ) (t t' : Timer) : Type 0 where
  pub valid : IsValid t'
  pub clock : t'.time_since_boot_ns ≡ t.time_since_boot_ns
  pub late : List Event
  pub same : Perm (items t') (late ++ items t)
  pub after : After now late

-- Callbacks that return, keep the clock and every event, and register only events after the present,
-- as those of kernel/tasks/scheduler.c do.
abbrev pub IsTame : Callback → Type 0
IsTame callback =
    (e : Event) (now : ℕ) (t : Timer)
    → IsValid t
    → t.time_since_boot_ns ≡ now
    → Returns (Kept now t) (callback e now t)

-- each event is due no earlier than the one before it, and the first no earlier than `from`
abbrev pub InOrder : ℕ → List Event → Type 0
InOrder from [] = Unit {0}
InOrder from (e ∷ es) = (from ≤ e.timestamp_ns) × InOrder e.timestamp_ns es

-- What the pulse leaves: it ran events in the order of their time stamps, each due at the present;
-- what is left is after the present; together they are the events of the queue and those that the
-- callbacks registered.
pub record Pulsed (t : Timer) (from : ℕ) (r : List Event × Timer) : Type 0 where
  pub valid : IsValid r.1
  pub clock : r.1.time_since_boot_ns ≡ t.time_since_boot_ns
  pub order : InOrder from r.0
  pub ran : (e : Event) → Mem e r.0 → e.timestamp_ns ≤ t.time_since_boot_ns
  pub left : After t.time_since_boot_ns (items r.1)
  pub late : List Event
  pub same : Perm (r.0 ++ items r.1) (late ++ items t)
  pub after : After t.time_since_boot_ns late

nothing_due :
    (t : Timer) (from : ℕ)
    → IsValid t
    → (ltb 0 t.size && leb (stamp t.array 0) t.time_since_boot_ns) ≡ false
    → Pulsed t from ([], t)
nothing_due t from v off = record {
  valid = v;
  clock = refl;
  order = tt;
  ran = λ e m. absurd (not-mem-nil m);
  left = λ e m. elim (ℕ_discrete t.size 0) [
    | yes z ↦ absurd (not-mem-nil (subst (λ n. Mem e (take n t.array)) z m))
    | no n ↦ ground (arith, items_least t v e m)
  ];
  late = [];
  same = Perm.refl _;
  after = λ e m. absurd (not-mem-nil m);
}

-- The queue after one event was taken out and its callback was run.
module _ (t : Timer) (e : Event) (t1 t2 : Timer) (x : Extracted t (e, t1))
    (k : Kept t.time_since_boot_ns t1 t2) where
  fewer_due :
      e.timestamp_ns ≤ t.time_since_boot_ns
      → due t.time_since_boot_ns (items t2) + 1 ≡ due t.time_since_boot_ns (items t)
  fewer_due h =
      let now = t.time_since_boot_ns in
      ground
        (arith, due-perm now k.same, due-append now k.late (items t1) k.after, due-perm now x.same)

  later :
      IsValid t
      → (f : Event) → Mem f (items t2)
      → e.timestamp_ns ≤ t.time_since_boot_ns
      → e.timestamp_ns ≤ f.timestamp_ns
  later v f m h =
      Or.elim le_prop (mem-append.0 ((Perm.mem_iff k.same).0 m))
        (λ (new : Mem f k.late). omega (arith, k.after f new))
        (λ old.
          rw (ap (λ (g : Event). g.timestamp_ns) x.first)
            (items_least t v f ((Perm.mem_iff x.same).0 (mem-cons_of_mem e old))))

  together :
      (r : List Event × Timer) (late : List Event)
      → Perm (r.0 ++ items r.1) (late ++ items t2)
      → Perm (e ∷ r.0 ++ items r.1) ((late ++ k.late) ++ items t)
  together r late same = Perm.trans (Perm.cons e same) (
      Perm.trans (Perm.cons e (Perm.append_left late k.same)) (
        Perm.trans
          (rw (← append_assoc late k.late (items t1))
            (Perm.symm (perm_middle (late ++ k.late) (items t1))))
          (Perm.append_left (late ++ k.late) x.same)))

  prepend :
      (from : ℕ) (r : List Event × Timer)
      → from ≤ e.timestamp_ns
      → e.timestamp_ns ≤ t.time_since_boot_ns
      → Pulsed t2 e.timestamp_ns r
      → Pulsed t from (e ∷ r.0, r.1)
  prepend from r lo h p =
      let clock : t2.time_since_boot_ns ≡ t.time_since_boot_ns = k.clock ∙ x.clock in
      record {
        valid = p.valid;
        clock = p.clock ∙ clock;
        order = (lo, p.order);
        ran = λ f m.
            Or.elim le_prop (mem-cons.0 m) (λ q. rw q h)
              (λ (q : Mem f r.0). rw clock at (p.ran f q));
        left = λ f m. rw clock at (p.left f m);
        late = p.late ++ k.late;
        same = together r p.late p.same;
        after = λ f m.
            Or.elim le_prop (mem-append.0 m) (λ (q : Mem f p.late). rw clock at (p.after f q))
              (k.after f);
      }

-- With more fuel than there are events due, the loop ends, and runs the events that are due.
pub run_events-Pulsed :
    (callback : Callback) (k : ℕ) (t : Timer) (from : ℕ)
    → IsTame callback
    → IsValid t
    → ((e : Event) → Mem e (items t) → from ≤ e.timestamp_ns)
    → due t.time_since_boot_ns (items t) < k
    → Returns (Pulsed t from) (run_events callback k t)
unfolding run_events
run_events-Pulsed callback zero t from tame v lo f = absurd (omega arith)
run_events-Pulsed callback (suc k) t from tame v lo f =
    elim (Bool-cases (ltb 0 t.size && leb (stamp t.array 0) t.time_since_boot_ns)) [
      | inr off ↦ rw off (returns (nothing_due t from v off))
      | inl on ↦ rw on (
          Returns-bind (extract_min_element_lem t v (ground arith)) λ (e, t1) x.
            let h : e.timestamp_ns ≤ t.time_since_boot_ns = ground (arith, x.first) in
            Returns-bind (tame e t.time_since_boot_ns t1 x.valid x.clock) λ t2 kept.
              let clock : t2.time_since_boot_ns ≡ t.time_since_boot_ns = kept.clock ∙ x.clock in
              let fewer = fewer_due t e t1 t2 x kept h in
              let from_root : from ≤ e.timestamp_ns =
                lo e ((Perm.mem_iff x.same).0 mem-cons_self) in
              Returns-bind
                (run_events-Pulsed callback k t2 e.timestamp_ns tame kept.valid
                  (λ g m. later t e t1 t2 x kept v g m h) (rw clock (omega (arith, fewer))))
                λ r p. returns (prepend t e t1 t2 x kept from r from_root h p))
    ]

due-le-length : (now : ℕ) (es : List Event) → due now es ≤ length es
due-le-length now [] = omega arith
due-le-length now (e ∷ es) = ground (arith, due-le-length now es)

-- A pulse on a valid queue, with callbacks that register only events after the present: the clock
-- advances modulo 2 ^ 64, the events due at the new time run in the order of their time stamps and
-- none before its time, every other event stays queued, and nothing that is due is left.
pub timer_report_clock_pulse-Pulsed :
    (callback : Callback) (fuel : ℕ) (t : Timer) (period_ns : ℕ)
    → IsTame callback
    → IsValid t
    → t.size < fuel
    → Returns
        (Pulsed (record t { time_since_boot_ns = (t.time_since_boot_ns + period_ns) % 2 ^ 64 }) 0)
        (timer_report_clock_pulse callback fuel t period_ns)
unfolding timer_report_clock_pulse
timer_report_clock_pulse-Pulsed callback fuel t period_ns tame v f =
    let now = (t.time_since_boot_ns + period_ns) % 2 ^ 64 in
    run_events-Pulsed callback fuel (record t { time_since_boot_ns = now }) 0 tame
      (record { fits = v.fits; stored = v.stored; ordered = v.ordered }) (λ e m. omega arith)
      (omega (arith, due-le-length now (items t), length-take t.size t.array))
