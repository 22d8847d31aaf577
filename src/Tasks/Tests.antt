-- ===== src/Tasks/Tests.antt =====
-- core/src/Tasks.c on a list of one task.
use cnc_robot_control.Common.{ℕ, zero, suc, ◌≡◌, refl, true, [], ◌∷◌, some, arith}
use cnc_robot_control.Config.Chars.{codes, strncmp_eq}
use cnc_robot_control.Tasks.KillErrors.{task_kill-early}
use cnc_robot_control.Tasks.Owners.{Owns}
use cnc_robot_control.Tasks.Safety.{Reach-Owns}
use cnc_robot_control.Tasks.Schedule.{
  Process, registered, named, entered, dangling, spawned, begin, moved, thread_main, find_node,
  Reach, here, next, create, run,
}
use cnc_robot_control.Tasks.TaskLaws.{Absent, entry_of, listed, create_task-lookup}
use cnc_robot_control.Tasks.TaskList.{
  TaskInfo, Tasks, Threads, create_task, thread_main_begins, task_get_id_by_name, task_kill,
}

abbrev running : TaskInfo
running = record {
  node = 0;
  entry_func = 100;
  thread_id = 77;
  stack_size = 1024;
  name = codes "left";
  arg = 200;
}

abbrev one_task : Tasks
one_task = record { task_list = running ∷ []; next_node = 1; cancelled = [] }

abbrev granting : Threads
granting = record {
  malloc_info_ok = λ s. true;
  malloc_node_ok = λ s. true;
  pthread_create = λ s. some 78;
}

right-Absent : Absent (codes "right") 1 (running ∷ [])
unfolding strncmp_eq
right-Absent = (refl, omega arith, tt)

create_task-lookup_example :
    (r : ℕ) × (s' : Tasks) × (create_task granting
        (some (codes "right"))
        1024
        (some 100)
        300
        one_task
      ≡ some (r, s'))
    × (task_get_id_by_name (some (codes "right")) s' ≡ 0)
    × (task_get_id_by_name (some (codes "right")) (thread_main_begins 1 78 s') ≡ 78)
create_task-lookup_example =
    create_task-lookup granting (codes "right") 1024 100 300 78 one_task (omega arith) (omega arith)
      refl refl (omega arith) right-Absent

-- One task is created, and its thread runs into its entry function.
abbrev made : Process
made =
    spawned 78 100 200 begin (listed begin.tasks (entry_of begin.tasks (codes "left") 1024 100 200))

abbrev ran : ℕ → Process
ran zero = made
ran (suc k) =
    let w = ran k in moved w 0 (thread_main 0 (w.workers 0).id (w.workers 0).place w.tasks)

ran-Reach : (k : ℕ) → Reach (ran k)
unfolding create_task
ran-Reach zero =
    next here (create granting (some (codes "left")) 1024 100 200 78 (omega arith) (λ n. cc) refl)
ran-Reach (suc k) = next (ran-Reach k) (run 0)

Reach-Owns_example :
    Owns 0
      ((ran 3).workers 0).id
      ((ran 3).workers 0).entry
      ((ran 3).workers 0).arg
      ((ran 3).workers 0).place
      (ran 3).tasks.task_list
unfolding create_task thread_main thread_main_begins
Reach-Owns_example = Reach-Owns 0 (ran-Reach 3) refl

ran_entered : ((ran 3).workers 0).place ≡ entered 100 200
unfolding create_task thread_main thread_main_begins
ran_entered = refl

task_kill-early_example :
    ((thread_main 0 77 registered (task_kill 77 one_task)).0 ≡ dangling)
    × ((thread_main 0 77 named (task_kill 77 one_task)).0 ≡ dangling)
unfolding find_node
task_kill-early_example =
    task_kill-early 0 77 one_task (omega arith) [] [] running refl refl refl refl refl
