-- ===== src/Types/Event/Build.antt =====
-- What the builder of types/event.rs makes.
use ryther_core.Base.{ℕ, List, [], ◌∷◌}
use ryther_core.Types.Event.{EventBuilder, add_strong_parent}

-- A builder to which strong parents were added one after the other.
unfoldable pub with_parents : EventBuilder → List (ℕ × ℕ) → EventBuilder
with_parents b [] = b
with_parents b ((id, time) ∷ parents) = with_parents (add_strong_parent b id time) parents
