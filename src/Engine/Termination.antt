-- ===== src/Engine/Termination.antt =====
-- That the loop of `dispatchDue` ends (internal/scheduledtask/engine.go).
use nx_panel.Tasks.{Task, Db}
use nx_panel.Engine.{HeapOps, Engine}
use nx_panel.Engine.Counts.{Schedule, Holds}
use nx_panel.Engine.Loop.{Round, again, done, dispatch_round, Moment}
use nx_panel.Base.{ℕ, zero, suc, ◌+◌, ◌*◌, ◌<◌, nat_eq, text_eq, Text}
use nx_panel.Base.Result.{Result}
use nx_panel.Base.Store
use nx_panel.Engine.Loads.{load_of}

-- A round that goes on leaves less to do.
record Falls (heap : HeapOps) (bound : ℕ) (r : Engine × Db) : Type 0 where
  schedule : Schedule
  holds : Holds heap r.0 schedule
  left : load_of r.1 r.0 < bound

abbrev Progress : HeapOps → ℕ → Round → Type 0
Progress heap bound (again e db) = Falls heap bound (e, db)
Progress heap bound (done e db full) = Unit

-- Rounds that are enough for a queue of n items of which the tasks are written by others before the
-- first k rounds alone.
abbrev pub rounds : ℕ → ℕ → ℕ
rounds zero n = 2 * n + 1
rounds (suc k) n = suc (rounds k (2 * n))

module _ (heap : HeapOps) (compile : Task → Result Text (ℕ → ℕ)) where
  abbrev round_of : Moment → Engine → Db → Round
  round_of moment e db = dispatch_round heap compile moment.fails e (moment.others db) moment.now
