-- ===== src/Timer/Tests.antt =====
-- Concrete runs of kernel/devices/timer.c.
use mathlib.Core.List.{not-mem-nil}
use mathlib.Core.List.Perm
use project_islay.Prelude.{
  inl, false, zero, suc, ◌+◌, ◌%◌, ◌^◌, ◌≡◌, refl, some, List, [], ◌∷◌, ◌++◌, arith, replicate,
  Returns, returns,
}
use project_islay.Timer.{
  Event, Timer, no_event, timed_event, Krealloc, Callback, grow, heapify, extract_min_element,
  timer_register_timed_event, timer_report_clock_pulse,
}
use project_islay.Timer.Order.{IsHeap, IsValid}
use project_islay.Timer.Heapify.{DownInv, Sifted, heapify_lem}
use project_islay.Timer.Extract.{Extracted, extract_min_element_lem}
use project_islay.Timer.Register.{Registered, timer_register-Registered}
use project_islay.Timer.Pulse.{IsTame, Pulsed, timer_report_clock_pulse-Pulsed}

-- a queue of three events
abbrev three : Timer
three = record {
  array = timed_event 5 1 ∷ timed_event 9 2 ∷ timed_event 7 3 ∷ [];
  size = 3;
  max_size = 3;
  time_since_boot_ns = 6;
}

three-IsHeap : IsHeap three.array 3
three-IsHeap zero p q = absurd (omega (arith, p))
three-IsHeap (suc zero) p q = omega arith
three-IsHeap (suc (suc zero)) p q = omega arith
three-IsHeap (suc (suc (suc c))) p q = absurd (omega (arith, q))

three-IsValid : IsValid three
three-IsValid = record { fits = omega arith; stored = omega arith; ordered = three-IsHeap }

-- the last entry put on top, as the extraction does
abbrev disordered : List Event
disordered = timed_event 7 3 ∷ timed_event 5 2 ∷ timed_event 6 1 ∷ []

disordered-DownInv : DownInv disordered 3 0
disordered-DownInv = record {
  edges = λ c p q n. absurd (n (omega (arith, p, q)));
  bridged = λ c p q e z. absurd (omega (arith, z));
}

heapify_example : Returns (Sifted disordered 3) (heapify 4 disordered 3 0)
heapify_example = heapify_lem 4 disordered 3 0 (omega arith) (omega arith) disordered-DownInv

extract_min_element_example : Returns (Extracted three) (extract_min_element three)
extract_min_element_example = extract_min_element_lem three three-IsValid (omega arith)

-- the same queue with room for two more, and an allocator without memory
abbrev roomy : Timer
roomy = record three { array = three.array ++ replicate 2 no_event; max_size = 5 }

roomy-IsValid : IsValid roomy
roomy-IsValid = record { fits = omega arith; stored = omega arith; ordered = roomy-IsHeap }
  where
    roomy-IsHeap : IsHeap roomy.array 3
    roomy-IsHeap zero p q = absurd (omega (arith, p))
    roomy-IsHeap (suc zero) p q = omega arith
    roomy-IsHeap (suc (suc zero)) p q = omega arith
    roomy-IsHeap (suc (suc (suc c))) p q = absurd (omega (arith, q))

abbrev exhausted : Krealloc
exhausted a bytes = inl (no_event ∷ a)

timer_register_example :
    Returns (Registered roomy (timed_event 3 4)) (timer_register_timed_event exhausted roomy 3 4)
timer_register_example = timer_register-Registered exhausted roomy 3 4 roomy-IsValid (omega arith)

-- A full queue that cannot grow keeps the pointer to the array that was freed.
register_dangling :
    timer_register_timed_event exhausted three 3 4
    ≡ some (false, record three { array = no_event ∷ three.array })
unfolding timer_register_timed_event grow
register_dangling = refl

-- a callback that registers nothing
abbrev idle : Callback
idle e now t = some t

idle-IsTame : IsTame idle
idle-IsTame e now t v c = returns (record {
  valid = v;
  clock = refl;
  late = [];
  same = Perm.refl _;
  after = λ e' m. absurd (not-mem-nil m);
})

timer_report_clock_pulse_example :
    Returns
      (Pulsed (record three { time_since_boot_ns = (6 + 2) % 2 ^ 64 }) 0)
      (timer_report_clock_pulse idle 4 three 2)
timer_report_clock_pulse_example =
    timer_report_clock_pulse-Pulsed idle 4 three 2 idle-IsTame three-IsValid (omega arith)
