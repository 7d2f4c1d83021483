-- ===== src/Dag/Store/Reach.antt =====
-- `can_reach` of dag/store.rs decides reachability along strong parents, and returns.
use ryther_core.Base.{
  ℕ, suc, zero, ◌+◌, ◌<◌, ◌≤◌, ◌≡◌, refl, ◌⊎◌, inl, inr, Bool, true, false, not, ◌&&◌, ◌||◌, Option,
  some, List, [], ◌∷◌, ◌++◌, if◌then◌else◌, eqb, eqb_iff, length, length-append, nat_eq, arith,
  Bool-cases, sym, ◌↔◌,
}
use ryther_core.Dict
use ryther_core.Dict.{contains, add}
use ryther_core.Dict.Laws.{contains-add}
use ryther_core.Types.Event.{DagEvent}
use ryther_core.Dag.Store.{
  DagStore, strong_parents_of, unvisited, bfs, links_left, run_can_reach, can_reach, or_false,
}

-- The event `u` is stored and names `v` as a strong parent.
abbrev pub IsParent : List (ℕ × DagEvent) → ℕ → ℕ → Type 0
IsParent events u v = contains v (strong_parents_of (Dict.get u events)) ≡ true

-- A chain of strong parents, none of its links longer than a stored event.
pub data Reach (events : List (ℕ × DagEvent)) (from : ℕ) : ℕ → Type 0 where
  here : Reach events from from
  step : {u v : ℕ} → Reach events from u → IsParent events u v → Reach events from v

contains-append :
    (v : ℕ) (xs ys : List ℕ) → contains v (xs ++ ys) ≡ (contains v xs || contains v ys)
unfolding contains
contains-append v [] ys = refl
contains-append v (x ∷ xs) ys = ground (arith, contains-append v xs ys)

contains_head : (u : ℕ) (queue : List ℕ) → contains u (u ∷ queue) ≡ true
unfolding contains
contains_head u queue = ground (arith, eqb_iff u u)

contains-unvisited :
    (v : ℕ) (visited parents : List ℕ)
    → contains v (unvisited visited parents) ≡ (contains v parents && not (contains v visited))
unfolding contains unvisited
contains-unvisited v visited [] = refl
contains-unvisited v visited (p ∷ ps) = ground (arith, contains-unvisited v visited ps, eqb_iff p v)

length-unvisited : (visited parents : List ℕ) → length (unvisited visited parents) ≤ length parents
unfolding unvisited
length-unvisited visited [] = omega arith
length-unvisited visited (p ∷ ps) = ground (arith, length-unvisited visited ps)

links_left_mono :
    (u : ℕ) (visited : List ℕ) (events : List (ℕ × DagEvent))
    → links_left (add u visited) events ≤ links_left visited events
unfolding links_left
links_left_mono u visited [] = omega arith
links_left_mono u visited ((id, event) ∷ events) =
    ground (arith, links_left_mono u visited events, contains-add u id visited)

links_left-add :
    (u : ℕ) (visited : List ℕ) (events : List (ℕ × DagEvent))
    → contains u visited ≡ false
    → links_left (add u visited) events + length (strong_parents_of (Dict.get u events))
      ≤ links_left visited events
unfolding links_left Dict.get
links_left-add u visited [] h = omega arith
links_left-add u visited ((id, event) ∷ events) h = ground (
  arith,
  links_left-add u visited events,
  links_left_mono u visited events,
  contains-add u id visited,
  eqb_iff id u,
)

-- Where the loop stands: what is in the queue is reachable, and what is visited has its parents
-- visited or queued.
record Inv (events : List (ℕ × DagEvent)) (from to : ℕ) (visited queue : List ℕ) : Type 0 where
  unseen : contains to visited ≡ false
  source : (contains from visited || contains from queue) ≡ true
  sound : (v : ℕ) → contains v queue ≡ true → Reach events from v
  closed :
      (u v : ℕ)
      → contains u visited ≡ true
      → IsParent events u v
      → (contains v visited || contains v queue) ≡ true

module _ (events : List (ℕ × DagEvent)) (from to : ℕ) where
  Inv-skip :
      (visited queue : List ℕ) (u : ℕ)
      → contains u visited ≡ true
      → Inv events from to visited (u ∷ queue)
      → Inv events from to visited queue
  unfolding contains
  Inv-skip visited queue u h i = record {
    unseen = i.unseen;
    source = ground (arith, i.source, h);
    sound = λ v q. i.sound v (ground (arith, q));
    closed = λ x v seen p. ground (arith, i.closed x v seen p, h);
  }

  Inv-visit :
      (visited queue : List ℕ) (u : ℕ)
      → eqb u to ≡ false
      → Inv events from to visited (u ∷ queue)
      → Inv events from to
          (add u visited)
          (queue ++ unvisited (add u visited) (strong_parents_of (Dict.get u events)))
  unfolding contains
  Inv-visit visited queue u h i =
      let parents = strong_parents_of (Dict.get u events) in
      let visited' = add u visited in
      let queued = λ (v : ℕ). contains-append v queue (unvisited visited' parents) in
      let fresh = λ (v : ℕ). contains-unvisited v visited' parents in
      let seen = λ (v : ℕ). contains-add u v visited in
      record {
        unseen = ground (arith, i.unseen, h, seen to);
        source = ground (arith, i.source, seen from, queued from);
        sound = λ v q. elim (Bool-cases (contains v queue)) [
          | inl e ↦ i.sound v (ground (arith, e))
          | inr e ↦
              step (i.sound u (ground (arith, eqb_iff u u)))
                (ground (arith, q, e, queued v, fresh v))
        ];
        closed = λ x v m p. elim (Bool-cases (eqb u x)) [
          | inl e ↦
              let same : u ≡ x = (eqb_iff u x).0 e in
              let child : contains v parents ≡ true = rw same p in
              ground (arith, child, seen v, queued v, fresh v)
          | inr e ↦ ground (arith, i.closed x v, m, p, e, seen x, seen v, queued v, fresh v)
        ];
      }

  -- With an empty queue every reachable event is visited.
  visited_all :
      (visited : List ℕ) (v : ℕ)
      → Inv events from to visited []
      → Reach events from v
      → contains v visited ≡ true
  unfolding contains
  visited_all visited v i here = ground (arith, i.source)
  visited_all visited v i (step {u} r p) =
      ground (arith, i.closed u v (visited_all visited u i r) p)

  -- The loop returns the truth.
  abbrev Decides : Option Bool → Type 0
  Decides o = ((o ≡ some true) × Reach events from to) ⊎ ((o ≡ some false) × ¬ Reach events from to)

  bfs-Decides :
      (fuel : ℕ) (visited queue : List ℕ)
      → length queue + links_left visited events < fuel
      → Inv events from to visited queue
      → Decides (bfs fuel events to visited queue)
  unfolding bfs
  bfs-Decides zero visited queue h i = absurd (omega arith)
  bfs-Decides (suc fuel) visited [] h i =
      inr (refl, λ r. ground (arith, visited_all visited to i r, i.unseen))
  bfs-Decides (suc fuel) visited (u ∷ queue) h i =
      let visited' = add u visited in
      let parents = strong_parents_of (Dict.get u events) in
      let fresh = unvisited visited' parents in
      elim (Bool-cases (eqb u to)) [
        | inl found ↦
            let same : u ≡ to = (eqb_iff u to).0 found in
            inl (rw found refl, rw (sym same) (i.sound u (contains_head u queue)))
        | inr other ↦ elim (Bool-cases (contains u visited)) [
          | inl old ↦
              rw (other, old)
                (bfs-Decides fuel visited queue (omega arith) (Inv-skip visited queue u old i))
          | inr new ↦
              let room : length (queue ++ fresh) + links_left visited' events < fuel = omega (
                arith,
                length-append queue fresh,
                length-unvisited visited' parents,
                links_left-add u visited events new,
              ) in
              rw (other, new)
                (bfs-Decides fuel visited' (queue ++ fresh) room
                  (Inv-visit visited queue u other i))
        ]
      ]

Inv-start : (events : List (ℕ × DagEvent)) (from to : ℕ) → Inv events from to [] (from ∷ [])
unfolding contains
Inv-start events from to = record {
  unseen = refl;
  source = ground (arith, eqb_iff from from);
  sound = λ v q. let same : from ≡ v = (eqb_iff from v).0 (ground (arith, q)) in rw (sym same) here;
  closed = λ u v m p. absurd (ground (arith, m));
}

decided :
    (events : List (ℕ × DagEvent)) (from to : ℕ) (o : Option Bool)
    → Decides events from to o
    → (o ≡ some (or_false o)) × ((or_false o ≡ true) ↔ Reach events from to)
decided events from to o (inl (e, r)) = rw e (refl, (λ h. r, λ h. refl))
decided events from to o (inr (e, r)) = rw e (refl, (λ h. absurd (cc h), λ h. absurd (r h)))

start-Decides :
    (events : List (ℕ × DagEvent)) (from to : ℕ) (same : Bool) (o : Option Bool)
    → (same ≡ true → from ≡ to)
    → Decides events from to o
    → Decides events from to (if same then some true else o)
start-Decides events from to true o h w = inl (refl, rw (h refl) here)
start-Decides events from to false o h w = w

run_can_reach-Decides :
    (d : DagStore) (from to : ℕ) → Decides d.events from to (run_can_reach d from to)
unfolding run_can_reach
run_can_reach-Decides d from to =
    let fuel = suc (suc (links_left [] d.events)) in
    start-Decides d.events from to (eqb from to) (bfs fuel d.events to [] (from ∷ []))
      (λ e. (eqb_iff from to).0 e)
      (bfs-Decides d.events from to fuel [] (from ∷ []) (omega arith) (Inv-start d.events from to))

-- `can_reach` always returns, with fuel two above the number of stored parent links, and it
-- returns true exactly when a chain of strong parents leads from the first event to the second.
pub can_reach_lem :
    (d : DagStore) (from to : ℕ)
    → (run_can_reach d from to ≡ some (can_reach d from to))
      × ((can_reach d from to ≡ true) ↔ Reach d.events from to)
unfolding can_reach
can_reach_lem d from to =
    decided d.events from to (run_can_reach d from to) (run_can_reach-Decides d from to)
