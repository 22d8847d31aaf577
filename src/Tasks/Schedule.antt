-- ===== src/Tasks/Schedule.antt =====
-- core/src/Tasks.c: `thread_main`, statement by statement, and threads that run it while others create and
-- kill tasks. The functions on `task_list` do not overlap: there is no lock that would see to it, and
-- what happens when they do is not modelled. An entry is told by its number, which is not used again.
use cnc_robot_control.Common.{
  ℕ, ◌<◌, ◌≡◌, ◌≢◌, Bool, true, false, ◌&&◌, List, [], ◌∷◌, Option, none, some, ◌==◌, if◌then◌else◌,
}
use cnc_robot_control.Config.Chars.{Bytes}
use cnc_robot_control.Tasks.TaskList.{
  TaskInfo, Tasks, Threads, create_task, task_kill, thread_main_begins, list_delete_task,
}

-- Where a thread is in `thread_main`: before each of the statements that use its entry, in the entry
-- function with an argument, at the end, or past a use of an entry that had been freed.
pub data Place : Type 0 where
  absent begun registered named : Place
  entered : ℕ → ℕ → Place
  ended dangling : Place

-- The thread of an entry: its id, and the function and argument that `CreateTask` was given for it.
pub record Worker : Type 0 where
  pub id : ℕ
  pub place : Place
  pub killed : Bool
  pub entry : ℕ
  pub arg : ℕ

pub record Process : Type 0 where
  pub tasks : Tasks
  pub workers : ℕ → Worker

-- The entry that the pointer of `thread_main` leads to, if it has not been freed.
unfoldable pub find_node : ℕ → List TaskInfo → Option TaskInfo
find_node n [] = none
find_node n (t ∷ ts) = if t.node == n then some t else find_node n ts

abbrev pub with_entry : Option TaskInfo → Tasks → (TaskInfo → Place × Tasks) → Place × Tasks
with_entry none s use_entry = (dangling, s)
with_entry (some t) s use_entry = use_entry t

-- The next statement of the thread `id` with the entry `n`.
unfoldable pub thread_main : ℕ → ℕ → Place → Tasks → Place × Tasks
unfolding find_node
thread_main n id begun s =
    with_entry (find_node n s.task_list) s (λ t. (registered, thread_main_begins n id s))
thread_main n id registered s = with_entry (find_node n s.task_list) s (λ t. (named, s))
thread_main n id named s =
    with_entry (find_node n s.task_list) s (λ t. (entered t.entry_func t.arg, s))
thread_main n id (entered f a) s = (ended, list_delete_task id s)
thread_main n id absent s = (absent, s)
thread_main n id ended s = (ended, s)
thread_main n id dangling s = (dangling, s)

abbrev pub alive : Place → Bool
alive absent = false
alive ended = false
alive p = true

abbrev pub update : (ℕ → Worker) → ℕ → Worker → ℕ → Worker
update f n x m = if m == n then x else f m

abbrev pub moved : Process → ℕ → Place × Tasks → Process
moved w n (p, s) = record {
  tasks = s;
  workers = update w.workers n (record (w.workers n) { place = p });
}

-- A thread that `pthread_create` has made for the entry that comes next.
abbrev pub spawned : ℕ → ℕ → ℕ → Process → Tasks → Process
spawned id entry arg w s = record {
  tasks = s;
  workers =
      update w.workers w.tasks.next_node
        (record { id = id; place = begun; killed = false; entry = entry; arg = arg });
}

abbrev pub mark : ℕ → Worker → Worker
mark id x = if alive x.place && x.id == id then record x { killed = true } else x

-- No thread that is alive has the id.
abbrev pub Fresh : ℕ → Process → Type 0
Fresh id w = (n : ℕ) → alive (w.workers n).place ≡ true → (w.workers n).id ≢ id

pub data Step : Process → Process → Type 0 where
  create :
      {w : Process} (th : Threads) (name : Option Bytes) (stack_size entry arg id : ℕ) {s : Tasks}
      → 0 < id
      → Fresh id w
      → create_task th name stack_size (some entry) arg w.tasks ≡ some (id, s)
      → Step w (spawned id entry arg w s)
  refuse :
      {w : Process} (th : Threads) (name : Option Bytes) (stack_size : ℕ) (entry : Option ℕ)
      (arg : ℕ) {s : Tasks}
      → create_task th name stack_size entry arg w.tasks ≡ some (0, s)
      → Step w (record w { tasks = s })
  run :
      {w : Process} (n : ℕ)
      → Step w (moved w n (thread_main n (w.workers n).id (w.workers n).place w.tasks))
  kill :
      {w : Process} (id : ℕ)
      → Step w (record { tasks = task_kill id w.tasks; workers = λ n. mark id (w.workers n) })
  cancel :  -- a thread that has been killed comes to a cancellation point
      {w : Process} (n : ℕ) → (w.workers n).killed ≡ true → Step w (moved w n (ended, w.tasks))

-- The program begins with an empty list.
abbrev pub begin : Process
begin = record {
  tasks = record { task_list = []; next_node = 0; cancelled = [] };
  workers = λ n. record { id = 0; place = absent; killed = false; entry = 0; arg = 0 };
}

pub data Reach : Process → Type 0 where
  here : Reach begin
  next : {w w' : Process} → Reach w → Step w w' → Reach w'
