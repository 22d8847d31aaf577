-- ===== src/Tasks/KillErrors.antt =====
-- core/src/Tasks.c: `Task_kill` on a thread that has not come to its entry function.
use cnc_robot_control.Common.{
  ℕ, ◌<◌, ◌≡◌, ◌∙◌, refl, ap, false, List, [], ◌∷◌, ◌++◌, none, arith, ◌==◌,
}
use cnc_robot_control.Tasks.Schedule.{registered, named, dangling, find_node, thread_main}
use cnc_robot_control.Tasks.TaskLaws.{entries_with}
use cnc_robot_control.Tasks.TaskList.{TaskInfo, Tasks, delete_in, list_delete_task, task_kill}

-- Deleting the only entry with an id frees it.
find_node-deleted :
    (n id : ℕ) (ts us : List TaskInfo) (t : TaskInfo)
    → t.thread_id ≡ id
    → entries_with id ts ≡ 0
    → find_node n ts ≡ none
    → find_node n us ≡ none
    → find_node n (delete_in id (ts ++ (t ∷ us))) ≡ none
unfolding find_node delete_in
find_node-deleted n id [] us t e z f g = ground (arith, e, g)
find_node-deleted n id (x ∷ ts) us t e z f g =
    ground (arith, e, z, f, g, find_node-deleted n id ts us t)

delete_in-none : (id : ℕ) (ts : List TaskInfo) → entries_with id ts ≡ 0 → delete_in id ts ≡ ts
unfolding delete_in
delete_in-none id [] z = refl
delete_in-none id (x ∷ ts) z = ground (arith, z, delete_in-none id ts)

module _ (n id : ℕ) (s : Tasks) (positive : 0 < id) where
  kill-deletes : (task_kill id s).task_list ≡ delete_in id s.task_list
  unfolding task_kill list_delete_task
  kill-deletes = let live : (id == 0) ≡ false = ground arith in rw live refl

  -- A thread that is killed after its first statement, and before it has called its entry function, uses
  -- its entry again, which `Task_kill` has freed.
  pub task_kill-early :
      (ts us : List TaskInfo) (t : TaskInfo)
      → s.task_list ≡ ts ++ (t ∷ us)
      → t.thread_id ≡ id
      → entries_with id ts ≡ 0
      → find_node n ts ≡ none
      → find_node n us ≡ none
      → ((thread_main n id registered (task_kill id s)).0 ≡ dangling)
        × ((thread_main n id named (task_kill id s)).0 ≡ dangling)
  unfolding thread_main
  task_kill-early ts us t l e z f g =
      let gone : find_node n (task_kill id s).task_list ≡ none =
        ap (find_node n) (kill-deletes ∙ ap (delete_in id) l)
        ∙ find_node-deleted n id ts us t e z f g in
      (rw gone refl, rw gone refl)

  -- A thread that is killed before its first statement, when no entry has its id yet, stays on the list.
  task_kill-unregistered :
      entries_with id s.task_list ≡ 0 → (task_kill id s).task_list ≡ s.task_list
  task_kill-unregistered z = kill-deletes ∙ delete_in-none id s.task_list z
