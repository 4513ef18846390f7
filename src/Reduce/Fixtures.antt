-- ===== src/Reduce/Fixtures.antt =====
-- A state, a graph and a time for runs of the reducer.
use first_fork.Common.{ℕ, ◌+◌, [], ◌∷◌}
use first_fork.Config.Fixtures.{small_config}
use first_fork.Graph.{DepGraph}
use first_fork.State.{State, new}
use first_fork.Reduce.Base.{Ctx, Texts}

abbrev pub texts : Texts
texts = record { debug_phase = λ p. "phase"; human_bytes = λ n. "bytes" }

abbrev pub ctx_at : ℕ → Ctx
ctx_at mono = record {
  mono_secs = mono;
  epoch_secs = 1700000000 + mono;
  wall = record { year = 2026; month = 3; day = 5; hour = 4; minute = 2; second = 0; weekday = 4 };
}

abbrev pub graph : DepGraph
graph = record {
  parents = ("cache", []) ∷ ("db", []) ∷ ("web", "db" ∷ []) ∷ [];
  all_ids = "db" ∷ "web" ∷ "cache" ∷ [];
  topo_order = "cache" ∷ "db" ∷ "web" ∷ [];
}

abbrev pub start : State
start = new small_config 0
