-- ===== src/Tasks/TaskLaws.antt =====
-- core/src/Tasks.c: what the list of tasks promises of creating, finding and killing tasks.
use cnc_robot_control.Common.{
  ℕ, zero, suc, ◌+◌, ◌-◌, ◌≤◌, ◌<◌, ◌≡◌, ◌≢◌, ◌∙◌, refl, ap, true, false, List, [], ◌∷◌, ◌++◌, none,
  some, arith, ◌==◌, if◌then◌else◌, length, take, Bool-cases, inl, inr,
}
use cnc_robot_control.Config.Chars.{Bytes, strncmp_eq}
use cnc_robot_control.Tasks.TaskList.{
  TaskInfo, Tasks, Threads, max_stack_size, task_name_len, list_insert_task, find_in,
  list_find_task, delete_in, list_delete_task, set_id, thread_main_begins, id_or_zero, create_task,
  id_by_name, task_get_id_by_name, task_kill,
}

-- How many entries have an id.
abbrev pub entries_with : ℕ → List TaskInfo → ℕ
entries_with id [] = 0
entries_with id (t ∷ ts) = (if t.thread_id == id then 1 else 0) + entries_with id ts

find_in-absent : (id : ℕ) (ts : List TaskInfo) → entries_with id ts ≡ 0 → find_in id ts ≡ none
unfolding find_in
find_in-absent id [] h = refl
find_in-absent id (t ∷ ts) h = ground (arith, find_in-absent id ts)

find_in-delete_in :
    (id : ℕ) (ts : List TaskInfo) → entries_with id ts ≤ 1 → find_in id (delete_in id ts) ≡ none
unfolding find_in delete_in
find_in-delete_in id [] h = refl
find_in-delete_in id (t ∷ ts) h = elim (Bool-cases (t.thread_id == id)) [
  | inl same ↦ rw (same, delete_in) (find_in-absent id ts (ground arith))
  | inr other ↦ rw (other, delete_in) (rw (other, find_in) (find_in-delete_in id ts (ground arith)))
]

find_in-delete_in-ne :
    (id j : ℕ) (ts : List TaskInfo) → id ≢ j → find_in j (delete_in id ts) ≡ find_in j ts
unfolding find_in delete_in
find_in-delete_in-ne id j [] n = refl
find_in-delete_in-ne id j (t ∷ ts) n = ground (arith, find_in-delete_in-ne id j ts n)

-- Killing a task whose id stands in one entry at most: the id is not found any more, every other task
-- is found as before, and the thread is cancelled.
pub task_kill-gone :
    (id : ℕ) (s : Tasks)
    → 0 < id
    → entries_with id s.task_list ≤ 1
    → (list_find_task id (task_kill id s) ≡ none)
      × ((j : ℕ) → id ≢ j → list_find_task j (task_kill id s) ≡ list_find_task j s)
      × ((task_kill id s).cancelled ≡ s.cancelled ++ id ∷ [])
unfolding list_find_task task_kill list_delete_task
task_kill-gone id s p u =
    let live : (id == 0) ≡ false = ground arith in
    (
      rw live (find_in-delete_in id s.task_list u),
      λ j n. rw live (find_in-delete_in-ne id j s.task_list n),
      rw live refl,
    )

-- No entry answers to a name, and every entry is older than `n`.
abbrev pub Absent : Bytes → ℕ → List TaskInfo → Type 0
Absent name n [] = Unit
Absent name n (t ∷ ts) =
    (strncmp_eq name t.name task_name_len ≡ false) × (t.node < n) × Absent name n ts

pub strncmp_eq-take :
    (name : Bytes) (n k : ℕ)
    → length name < n
    → n ≤ suc k
    → strncmp_eq name (take k name) (suc k) ≡ true
unfolding strncmp_eq
strncmp_eq-take [] n zero h u = refl
strncmp_eq-take [] n (suc k) h u = refl
strncmp_eq-take (c ∷ name) zero k h u = elim h [ ]
strncmp_eq-take (c ∷ name) (suc n) zero h u = absurd (omega arith)
strncmp_eq-take (c ∷ name) (suc n) (suc k) h u =
    ground (arith, strncmp_eq-take name n k (omega arith) (omega arith))

id_by_name-last :
    (name : Bytes) (n : ℕ) (ts : List TaskInfo) (t : TaskInfo)
    → Absent name n ts
    → strncmp_eq name t.name task_name_len ≡ true
    → id_by_name name (ts ++ t ∷ []) ≡ t.thread_id
unfolding id_by_name
id_by_name-last name n [] t a e = rw e refl
id_by_name-last name n (x ∷ ts) t (a, _, rest) e = rw a (id_by_name-last name n ts t rest e)

pub set_id-last :
    (name : Bytes) (n id : ℕ) (ts : List TaskInfo) (t : TaskInfo)
    → Absent name n ts
    → t.node ≡ n
    → set_id n id (ts ++ t ∷ []) ≡ ts ++ record t { thread_id = id } ∷ []
unfolding set_id
set_id-last name n id [] t a e = ground arith
set_id-last name n id (x ∷ ts) t (_, b, rest) e = ground (arith, set_id-last name n id ts t rest e)

-- The entry that a call makes.
abbrev pub entry_of : Tasks → Bytes → ℕ → ℕ → ℕ → TaskInfo
entry_of s name stack_size entry arg = record {
  node = s.next_node;
  entry_func = entry;
  thread_id = 0;
  stack_size = stack_size;
  name = take (task_name_len - 1) name;
  arg = arg;
}

abbrev pub listed : Tasks → TaskInfo → Tasks
listed s t = record s { next_node = s.next_node + 1; task_list = s.task_list ++ t ∷ [] }

pub create_task-listed :
    (th : Threads) (name : Bytes) (stack_size entry arg : ℕ) (s : Tasks)
    → 0 < stack_size
    → stack_size ≤ max_stack_size
    → th.malloc_info_ok s ≡ true
    → th.malloc_node_ok (record s { next_node = s.next_node + 1 }) ≡ true
    → create_task th (some name) stack_size (some entry) arg s
      ≡ some (
        id_or_zero (th.pthread_create (listed s (entry_of s name stack_size entry arg))),
        listed s (entry_of s name stack_size entry arg),
      )
unfolding create_task list_insert_task
create_task-listed th name stack_size entry arg s p u m k = ground arith

-- The look-up by name behind the first statement of the thread of the last entry.
pub id_of_last :
    (name : Bytes) (id : ℕ) (s : Tasks) (t : TaskInfo)
    → Absent name s.next_node s.task_list
    → t.node ≡ s.next_node
    → strncmp_eq name t.name task_name_len ≡ true
    → task_get_id_by_name (some name) (thread_main_begins s.next_node id (listed s t)) ≡ id
unfolding task_get_id_by_name thread_main_begins
id_of_last name id s t a e same =
    ap (id_by_name name) (set_id-last name s.next_node id s.task_list t a e)
    ∙ id_by_name-last name s.next_node s.task_list (record t { thread_id = id }) a same

-- A task that is created with a valid size of its stack and memory for its entry and its node, under a new name of
-- less than TASK_NAME_LEN bytes: until its thread has run
-- its first statement, the look-up by name gives 0, as it does for a name that no task has, and
-- afterwards it gives the id of the thread.
pub create_task-lookup :
    (th : Threads) (name : Bytes) (stack_size entry arg id : ℕ) (s : Tasks)
    → 0 < stack_size
    → stack_size ≤ max_stack_size
    → th.malloc_info_ok s ≡ true
    → th.malloc_node_ok (record s { next_node = s.next_node + 1 }) ≡ true
    → length name < task_name_len
    → Absent name s.next_node s.task_list
    → (r : ℕ) × (s' : Tasks) × (create_task th (some name) stack_size (some entry) arg s
        ≡ some (r, s'))
      × (task_get_id_by_name (some name) s' ≡ 0)
      × (task_get_id_by_name (some name) (thread_main_begins s.next_node id s') ≡ id)
unfolding task_get_id_by_name thread_main_begins
create_task-lookup th name stack_size entry arg id s p u m k h a =
    let t = entry_of s name stack_size entry arg in
    let same = strncmp_eq-take name task_name_len (task_name_len - 1) h (omega arith) in
    (
      id_or_zero (th.pthread_create (listed s t)),
      listed s t,
      create_task-listed th name stack_size entry arg s p u m k,
      id_by_name-last name s.next_node s.task_list t a same,
      id_of_last name id s t a refl same,
    )
