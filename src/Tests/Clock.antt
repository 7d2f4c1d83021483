-- ===== src/Tests/Clock.antt =====
-- The theorems about types/lamport.rs at concrete inputs.
use native.Mathlib.Omega.{arith}
use ryther_core.Base.{◌+◌, ◌<◌, ◌≡◌, ◌⊎◌, refl, List, [], ◌∷◌}
use ryther_core.Types.Lamport.{
  System, Action, idle, loading, exchanging, ticks, witnesses, proceeds, start, step, run, new,
}
use ryther_core.Types.Lamport.Order.{Below, returned_in_order, exchange_progress}

-- Thread 1 loads the clock, thread 0 ticks, and thread 1's exchange fails and is tried again.
abbrev raced : List Action
raced = witnesses 1 5 ∷ proceeds 1 ∷ ticks 0 ∷ proceeds 1 ∷ proceeds 1 ∷ proceeds 1 ∷ []

returned_in_order_example : Below ((run start raced).clock.value + 1) (run start raced).returned
unfolding step start new
returned_in_order_example = returned_in_order raced (
  omega arith,
  (omega arith),
  (omega arith, tt, (omega arith, tt, (omega arith, tt, (omega arith, tt, (omega arith, tt, tt))))),
)

abbrev before_exchange : System
before_exchange = record {
  clock = record { value = 3 };
  threads = λ _. exchanging 5 2;
  returned = 3 ∷ 2 ∷ [];
}

exchange_progress_example :
    let s' = step before_exchange (proceeds 1) in
    ((s'.returned ≡ s'.clock.value ∷ 3 ∷ 2 ∷ [])
      × (3 < s'.clock.value)
      × (5 < s'.clock.value)
      × (s'.threads 1 ≡ idle))
    ⊎ ((s'.returned ≡ 3 ∷ 2 ∷ []) × (s'.clock.value ≡ 3) × (2 < 3) × (s'.threads 1 ≡ loading 5))
exchange_progress_example =
    exchange_progress before_exchange 1 5 2
      (record {
        falling = (omega arith, (omega arith, tt));
        threads_ok = λ t. (omega arith, omega arith);
      })
      (omega arith) refl
