-- ===== src/Tasks/KillLaws.antt =====
-- core/src/Tasks.c: a task from its creation to `Task_kill`.
use cnc_robot_control.Common.{
  ◌-◌, some, ℕ, ◌<◌, ◌≡◌, refl, false, List, [], ◌∷◌, ◌++◌, some, arith, ◌==◌, length,
}
use cnc_robot_control.Config.Chars.{Bytes}
use cnc_robot_control.Tasks.TaskLaws.{
  Absent, id_of_last, strncmp_eq-take, entries_with, entry_of, listed, set_id-last,
}
use cnc_robot_control.Tasks.TaskList.{
  TaskInfo, Tasks, delete_in, list_delete_task, task_get_id_by_name, task_kill, task_name_len,
  thread_main_begins,
}

delete_in-last :
    (id : ℕ) (ts : List TaskInfo) (t : TaskInfo)
    → entries_with id ts ≡ 0
    → t.thread_id ≡ id
    → delete_in id (ts ++ t ∷ []) ≡ ts
unfolding delete_in
delete_in-last id [] t n e = ground (arith, e)
delete_in-last id (x ∷ ts) t n e = ground (arith, n, delete_in-last id ts t, e)

kill-listed :
    (id : ℕ) (s : Tasks) (ts : List TaskInfo) (t : TaskInfo)
    → 0 < id
    → s.task_list ≡ ts ++ t ∷ []
    → entries_with id ts ≡ 0
    → t.thread_id ≡ id
    → ((task_kill id s).task_list ≡ ts) × ((task_kill id s).cancelled ≡ s.cancelled ++ id ∷ [])
unfolding task_kill list_delete_task
kill-listed id s ts t p l n e =
    let live : (id == 0) ≡ false = ground arith in
    (rw (live, l) (delete_in-last id ts t n e), rw live refl)

-- The entry of a new name, whose thread has begun with a new id: killing the task that has this name
-- takes the entry off the list, and cancels the thread.
pub listed-kill :
    (name : Bytes) (stack_size entry arg id : ℕ) (s : Tasks)
    → length name < task_name_len
    → Absent name s.next_node s.task_list
    → 0 < id
    → entries_with id s.task_list ≡ 0
    → let s' =
        thread_main_begins s.next_node id (listed s (entry_of s name stack_size entry arg)) in
      ((task_kill (task_get_id_by_name (some name) s') s').task_list ≡ s.task_list)
      × ((task_kill (task_get_id_by_name (some name) s') s').cancelled ≡ s.cancelled ++ id ∷ [])
unfolding thread_main_begins
listed-kill name stack_size entry arg id s h a live n =
    let t = entry_of s name stack_size entry arg in
    let same = strncmp_eq-take name task_name_len (task_name_len - 1) h (omega arith) in
    rw (id_of_last name id s t a refl same) (
      kill-listed id (thread_main_begins s.next_node id (listed s t)) s.task_list
        (record t { thread_id = id }) live (set_id-last name s.next_node id s.task_list t a refl) n
        refl)
