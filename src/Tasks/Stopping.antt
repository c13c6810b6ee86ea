-- ===== src/Tasks/Stopping.antt =====
-- The shutdown of the task manager: a task that ends while it waits.
use rawfile_localpv.Prelude.{ℕ, String, Bool, true, List, [], ◌∷◌, Dict, insert, erase, is_empty}
use rawfile_localpv.Tasks.Defs.{completed, Entry, TaskManager, save_task}
use rawfile_localpv.Tasks.Manager.{returned}
use rawfile_localpv.Tasks.Worker.{Poll}

-- The poll at which the futures of `is_running` are seen running, and after which `k` ends well.
abbrev pub ends_well : String → (ℕ → Bool) → Poll
ends_well k is_running = record { is_running = is_running; done = (k, returned) ∷ [] }

-- No look that finds a task follows: the time is out, or the tasks are gone.
abbrev pub is_last : List Poll → Dict Entry → Bool
is_last [] tasks = true
is_last (q ∷ rest) tasks = is_empty tasks

-- The manager `m` after the callback of the task `e`.
abbrev after : String → Entry → TaskManager → TaskManager
after k e m =
    save_task k (record (e.info) { state = completed }) (record m { tasks = erase k m.tasks })

abbrev noted : String → Entry → Dict Entry → Dict Entry
noted k e seen = insert k (record e { info = record (e.info) { state = completed } }) seen
