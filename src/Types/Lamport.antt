-- ===== src/Types/Lamport.antt =====
-- types/lamport.rs. The atomic `value` is shared by threads; each atomic operation is one step, so
-- `witness` is two: the load, and the compare-and-exchange that either returns or goes round.
pub mod Order
use ryther_core.Base.{
  ℕ, ◌+◌, ◌≡◌, List, [], ◌∷◌, Option, none, some, if◌then◌else◌, max, maximum, eqb, add64,
}

pub record LamportClock : Type 0 where
  pub value : ℕ

unfoldable pub new : LamportClock
new = record { value = 0 }

unfoldable pub with_initial : ℕ → LamportClock
with_initial initial = record { value = initial }

unfoldable pub current : LamportClock → ℕ
current c = c.value

unfoldable pub clone : LamportClock → LamportClock
unfolding with_initial current
clone c = with_initial (current c)

-- `fetch_add(1) + 1`
unfoldable pub tick : LamportClock → LamportClock × ℕ
tick c = (record { value = add64 c.value 1 }, add64 c.value 1)

-- One round of the loop in `witness`, after the load of `loaded`.
unfoldable pub try_witness : ℕ → ℕ → LamportClock → LamportClock × Option ℕ
try_witness received loaded c =
    let new_time = add64 (max loaded received) 1 in
    if eqb c.value loaded then (record { value = new_time }, some new_time) else (c, none)

unfoldable pub retry :
    (LamportClock → LamportClock × Option ℕ) → LamportClock × Option ℕ → LamportClock × Option ℕ
retry again (c, some time) = (c, some time)
retry again (c, none) = again c

-- The loop. In its first rounds another thread stores a value of `others` between the load and
-- the exchange, one for each round; after that the call runs alone.
unfoldable pub witness : List ℕ → ℕ → LamportClock → LamportClock × Option ℕ
unfolding try_witness retry
witness [] received c = try_witness received c.value c
witness (other ∷ others) received c =
    retry (witness others received) (try_witness received c.value (record { value = other }))

unfoldable pub witness_many : List ℕ → List ℕ → LamportClock → LamportClock × Option ℕ
witness_many others timestamps c = witness others (maximum timestamps) c

-- What a thread is doing: nothing, about to load, or about to exchange what it loaded.
pub data Thread : Type 0 where
  idle : Thread
  loading : ℕ → Thread
  exchanging : ℕ → ℕ → Thread

-- The clock, the threads, and the timestamps that calls have returned, newest first.
pub record System : Type 0 where
  pub clock : LamportClock
  pub threads : ℕ → Thread
  pub returned : List ℕ

pub data Action : Type 0 where
  ticks : ℕ → Action
  witnesses : ℕ → ℕ → Action
  proceeds : ℕ → Action

unfoldable pub put_thread : (ℕ → Thread) → ℕ → Thread → ℕ → Thread
put_thread threads t s u = if eqb u t then s else threads u

unfoldable pub finish : System → ℕ → ℕ → LamportClock × Option ℕ → System
unfolding put_thread
finish s t received (c, some time) = record {
  clock = c;
  threads = put_thread s.threads t idle;
  returned = time ∷ s.returned;
}
finish s t received (c, none) = record s {
  clock = c;
  threads = put_thread s.threads t (loading received);
}

unfoldable pub advance : System → ℕ → Thread → System
unfolding finish put_thread try_witness
advance s t idle = s
advance s t (loading received) = record s {
  threads = put_thread s.threads t (exchanging received s.clock.value);
}
advance s t (exchanging received loaded) = finish s t received (try_witness received loaded s.clock)

-- One atomic step of one thread.
unfoldable pub step : System → Action → System
unfolding advance tick
step s (ticks t) = finish s t 0 ((tick s.clock).0, some (tick s.clock).1)
step s (witnesses t received) = record s { threads = put_thread s.threads t (loading received) }
step s (proceeds t) = advance s t (s.threads t)

unfoldable pub run : System → List Action → System
run s [] = s
run s (a ∷ rest) = run (step s a) rest

unfoldable pub start : System
unfolding new
start = record { clock = new; threads = λ _. idle; returned = [] }
