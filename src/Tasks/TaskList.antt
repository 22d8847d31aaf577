-- ===== src/Tasks/TaskList.antt =====
-- core/src/Tasks.c: the static `task_list` and its functions. The threads are parameters; a thread's id
-- is a positive number.
use cnc_robot_control.Common.{
  ℕ, ◌+◌, ◌-◌, ◌*◌, Bool, not, ◌||◌, List, [], ◌∷◌, ◌++◌, Option, none, some, ltb, ◌==◌,
  if◌then◌else◌, take,
}
use cnc_robot_control.Common.Int.{◌>>=◌}
use cnc_robot_control.Config.Chars.{Bytes, strncmp_eq}

abbrev pub max_stack_size : ℕ
max_stack_size = 1024 * 1024

abbrev pub task_name_len : ℕ
task_name_len = 32

-- The entry function and its argument are the numbers of pointers. `node` tells the entries apart, as
-- the pointer that `thread_main` is given does.
pub record TaskInfo : Type 0 where
  pub node : ℕ
  pub entry_func : ℕ
  pub thread_id : ℕ
  pub stack_size : ℕ
  pub name : Bytes
  pub arg : ℕ

pub record Tasks : Type 0 where
  pub task_list : List TaskInfo
  pub next_node : ℕ
  pub cancelled : List ℕ

-- What the allocator and `pthread_create` answer.
pub record Threads : Type 0 where
  pub malloc_info_ok : Tasks → Bool
  pub malloc_node_ok : Tasks → Bool
  pub pthread_create : Tasks → Option ℕ

-- The result of the `malloc` for the node is not tested: `none` is a write through NULL.
unfoldable pub list_insert_task : Threads → TaskInfo → Tasks → Option Tasks
list_insert_task th t s =
    if th.malloc_node_ok s then some (record s { task_list = s.task_list ++ t ∷ [] }) else none

unfoldable pub find_in : ℕ → List TaskInfo → Option TaskInfo
find_in id [] = none
find_in id (t ∷ ts) = if t.thread_id == id then some t else find_in id ts

unfoldable pub list_find_task : ℕ → Tasks → Option TaskInfo
unfolding find_in
list_find_task id s = find_in id s.task_list

unfoldable pub delete_in : ℕ → List TaskInfo → List TaskInfo
delete_in id [] = []
delete_in id (t ∷ ts) = if t.thread_id == id then ts else t ∷ delete_in id ts

unfoldable pub list_delete_task : ℕ → Tasks → Tasks
unfolding delete_in
list_delete_task id s = record s { task_list = delete_in id s.task_list }

unfoldable pub set_id : ℕ → ℕ → List TaskInfo → List TaskInfo
set_id node id [] = []
set_id node id (t ∷ ts) =
    (if t.node == node then record t { thread_id = id } else t) ∷ set_id node id ts

-- The first statement of `thread_main`, in the thread `id` that was given the entry `node`; its last
-- one is `list_delete_task`.
unfoldable pub thread_main_begins : ℕ → ℕ → Tasks → Tasks
unfolding set_id
thread_main_begins node id s = record s { task_list = set_id node id s.task_list }

-- The id that `pthread_create` gives, or 0.
abbrev pub id_or_zero : Option ℕ → ℕ
id_or_zero none = 0
id_or_zero (some id) = id

unfoldable pub create_task : Threads → Option Bytes → ℕ → Option ℕ → ℕ → Tasks → Option (ℕ × Tasks)
unfolding list_insert_task
create_task th none stack_size entry arg s = some (0, s)
create_task th (some name) stack_size none arg s = some (0, s)
create_task th (some name) stack_size (some entry) arg s =
    let info : TaskInfo = record {
      node = s.next_node;
      entry_func = entry;
      thread_id = 0;
      stack_size = stack_size;
      name = take (task_name_len - 1) name;
      arg = arg;
    } in
    if stack_size == 0 || ltb max_stack_size stack_size
    then some (0, s)
    else if not (th.malloc_info_ok s)
    then some (0, s)
    else (do
      listed ← list_insert_task th info (record s { next_node = s.next_node + 1 })
      some (id_or_zero (th.pthread_create listed), listed))

unfoldable pub id_by_name : Bytes → List TaskInfo → ℕ
id_by_name name [] = 0
id_by_name name (t ∷ ts) =
    if strncmp_eq name t.name task_name_len then t.thread_id else id_by_name name ts

unfoldable pub task_get_id_by_name : Option Bytes → Tasks → ℕ
unfolding id_by_name
task_get_id_by_name none s = 0
task_get_id_by_name (some name) s = id_by_name name s.task_list

unfoldable pub task_kill : ℕ → Tasks → Tasks
unfolding list_delete_task
task_kill id s =
    if id == 0
    then s
    else (let s' = list_delete_task id s in record s' { cancelled = s'.cancelled ++ id ∷ [] })
