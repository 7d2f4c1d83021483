-- ===== src/Types/Lamport/Order.antt =====
-- The order of the timestamps that the clock hands out, for every interleaving of its threads.
use ryther_core.Base.{
  ℕ, ◌+◌, ◌≤◌, ◌<◌, ◌≡◌, ◌⊎◌, inl, inr, List, [], ◌∷◌, none, some, arith, max, maximum, eqb,
  Bool-cases, sym, subst, add64, u64_mod, All, le-maximum, All-map_imp,
}
use ryther_core.Types.Lamport.{
  LamportClock, tick, try_witness, retry, witness, witness_many, Thread, idle, loading, exchanging,
  System, Action, ticks, witnesses, proceeds, put_thread, finish, advance, step, run, start, new,
}

-- Strictly falling, from below a bound.
abbrev pub Below : ℕ → List ℕ → Type 0
Below n [] = Unit {0}
Below n (x ∷ xs) = (x < n) × Below x xs

-- What a thread has read is no later than the clock, and what it witnesses leaves room for one more.
abbrev pub IsOk : ℕ → Thread → Type 0
IsOk now idle = Unit {0}
IsOk now (loading received) = received + 1 < u64_mod
IsOk now (exchanging received loaded) = (received + 1 < u64_mod) × (loaded ≤ now)

pub record Inv (s : System) : Type 0 where
  pub falling : Below (s.clock.value + 1) s.returned
  pub threads_ok : (t : ℕ) → IsOk s.clock.value (s.threads t)

abbrev pub InRange : Action → Type 0
InRange (witnesses t received) = received + 1 < u64_mod
InRange _ = Unit {0}

-- No action of the run starts at the last value of the counter.
abbrev pub Room : System → List Action → Type 0
Room s [] = Unit {0}
Room s (a ∷ rest) = (s.clock.value + 1 < u64_mod) × InRange a × Room (step s a) rest

IsOk-mono : (m n : ℕ) (t : Thread) → m ≤ n → IsOk m t → IsOk n t
IsOk-mono m n idle h o = tt
IsOk-mono m n (loading r) h o = o
IsOk-mono m n (exchanging r l) h o = omega arith

put_thread-IsOk :
    (threads : ℕ → Thread) (t u now later : ℕ) (x : Thread)
    → now ≤ later
    → IsOk later x
    → IsOk now (threads u)
    → IsOk later (put_thread threads t x u)
unfolding put_thread
put_thread-IsOk threads t u now later x h new old = ground (arith, IsOk-mono now later (threads u))

Below-mono : (m n : ℕ) (xs : List ℕ) → m ≤ n → Below m xs → Below n xs
Below-mono m n [] h b = tt
Below-mono m n (x ∷ xs) h b = (omega arith, b.1)

-- A call that returns a later time.
finish-Inv :
    (s : System) (t received time : ℕ)
    → s.clock.value < time
    → Inv s
    → Inv (finish s t received (record { value = time }, some time))
unfolding finish
finish-Inv s t received time h v = record {
  falling = (omega arith, Below-mono (s.clock.value + 1) time s.returned (omega arith) v.falling);
  threads_ok =
      λ u. put_thread-IsOk s.threads t u s.clock.value time idle (omega arith) tt (v.threads_ok u);
}

-- A thread that goes on without returning.
move-Inv :
    (s : System) (t : ℕ) (x : Thread)
    → IsOk s.clock.value x
    → Inv s
    → Inv (record s { threads = put_thread s.threads t x })
move-Inv s t x o v = record {
  falling = v.falling;
  threads_ok = λ u.
      put_thread-IsOk s.threads t u s.clock.value s.clock.value x (omega arith) o (v.threads_ok u);
}

start-Inv : Inv start
unfolding start
start-Inv = record { falling = tt; threads_ok = λ t. tt }

try_witness-cases :
    (r l : ℕ) (c : LamportClock)
    → (r + 1 < u64_mod) × (l ≤ c.value)
    → c.value + 1 < u64_mod
    → ((time : ℕ) × (try_witness r l c ≡ (record { value = time }, some time)) × (c.value < time))
      ⊎ (try_witness r l c ≡ (c, none))
unfolding try_witness
try_witness-cases r l c o h = elim (Bool-cases (eqb c.value l)) [
  | inl same ↦ inl (add64 (max l r) 1, rw same, ground arith)
  | inr moved ↦ inr (rw moved)
]

advance-Inv :
    (s : System) (t : ℕ) (x : Thread)
    → s.clock.value + 1 < u64_mod
    → IsOk s.clock.value x
    → Inv s
    → Inv (advance s t x)
unfolding advance finish
advance-Inv s t idle h o v = v
advance-Inv s t (loading r) h o v = move-Inv s t (exchanging r s.clock.value) (o, omega arith) v
advance-Inv s t (exchanging r l) h o v = elim (try_witness-cases r l s.clock o h) [
  | inl (time, e, later) ↦ rw e (finish-Inv s t r time later v)
  | inr e ↦ rw e (move-Inv s t (loading r) o.0 v)
]

step-Inv :
    (s : System) (a : Action) → s.clock.value + 1 < u64_mod → InRange a → Inv s → Inv (step s a)
unfolding step tick finish
step-Inv s (ticks t) h o v =
    subst (λ time. Inv (finish s t 0 (record { value = time }, some time))) (sym new_time)
      (finish-Inv s t 0 (s.clock.value + 1) (omega arith) v)
  where
    new_time : add64 s.clock.value 1 ≡ s.clock.value + 1
    new_time = omega arith
step-Inv s (witnesses t r) h o v = move-Inv s t (loading r) o v
step-Inv s (proceeds t) h o v = advance-Inv s t (s.threads t) h (v.threads_ok t) v

run-Inv : (s : System) (actions : List Action) → Room s actions → Inv s → Inv (run s actions)
unfolding run
run-Inv s [] room v = v
run-Inv s (a ∷ rest) room v = run-Inv (step s a) rest room.2 (step-Inv s a room.0 room.1 v)

-- From a fresh clock, under any interleaving of ticks and witnesses that leaves the counter room
-- below 2 ^ 64, the timestamps returned fall strictly from the newest to the oldest, and none is
-- later than the clock.
pub returned_in_order :
    (actions : List Action)
    → Room start actions
    → Below ((run start actions).clock.value + 1) (run start actions).returned
returned_in_order actions room = (run-Inv start actions room start-Inv).falling

-- In a state with the threads' invariant and a clock below 2 ^ 64 - 1, a thread at its exchange
-- either returns a time that is later than the clock and than what it witnesses, and sets the
-- clock to it; or it goes round without touching the clock, and then the clock has moved on since
-- the thread loaded it.
pub exchange_progress :
    (s : System) (t received loaded : ℕ)
    → Inv s
    → s.clock.value + 1 < u64_mod
    → s.threads t ≡ exchanging received loaded
    → let s' = step s (proceeds t) in
      ((s'.returned ≡ s'.clock.value ∷ s.returned)
        × (s.clock.value < s'.clock.value)
        × (received < s'.clock.value)
        × (s'.threads t ≡ idle))
      ⊎ ((s'.returned ≡ s.returned)
          × (s'.clock.value ≡ s.clock.value)
          × (loaded < s.clock.value)
          × (s'.threads t ≡ loading received))
unfolding step advance finish put_thread try_witness
exchange_progress s t received loaded v h e =
    let o = subst (IsOk s.clock.value) e (v.threads_ok t) in rw (e, advance) (ground (arith, o))

witness_returns :
    (others : List ℕ) (received : ℕ) (c : LamportClock)
    → received + 1 < u64_mod
    → c.value + 1 < u64_mod
    → All (λ v. v + 1 < u64_mod) others
    → (time : ℕ) × (witness others received c ≡ (record { value = time }, some time))
      × (received < time)
unfolding witness try_witness retry
witness_returns [] r c h k o = (add64 (max c.value r) 1, ground arith, omega arith)
witness_returns (other ∷ others) r c h k o = elim (Bool-cases (eqb other c.value)) [
  | inl same ↦ (add64 (max c.value r) 1, rw same, omega arith)
  | inr moved ↦ rw moved (witness_returns others r (record { value = other }) h o.0 o.1)
]

-- Whatever other threads store meanwhile, `witness_many` returns once they stop: some time later
-- than every timestamp given, and the clock shows that time. The clock, the timestamps and what
-- the others store are below 2 ^ 64 - 1.
witness_many_returns :
    (others timestamps : List ℕ) (c : LamportClock)
    → maximum timestamps + 1 < u64_mod
    → c.value + 1 < u64_mod
    → All (λ v. v + 1 < u64_mod) others
    → (time : ℕ) × (witness_many others timestamps c ≡ (record { value = time }, some time))
      × All (λ r. r < time) timestamps
unfolding witness_many
witness_many_returns others timestamps c h k o =
    let (time, e, later) = witness_returns others (maximum timestamps) c h k o in
    (time, e, All-map_imp (λ r b. omega arith) timestamps (le-maximum timestamps))
