-- ===== src/Tasks/Safety.antt =====
-- core/src/Tasks.c: what a thread meets, however the threads and the calls interleave.
use cnc_robot_control.Common.{
  Always, ◌+◌, ℕ, ◌<◌, ◌≡◌, ◌⊎◌, refl, false, ◌||◌, Option, none, some, arith, ◌==◌, ltb,
  Bool-cases, inl, inr,
}
use mathlib.Core.Path.{subst}
use cnc_robot_control.Config.Chars.{Bytes}
use cnc_robot_control.Tasks.Changes.{New, kill-Inv, listed-Inv, spawned-Inv}
use cnc_robot_control.Tasks.Invariant.{Inv, stay-Inv, run-Inv}
use cnc_robot_control.Tasks.Owners.{Owns}
use cnc_robot_control.Tasks.Schedule.{
  ended, Process, find_node, Fresh, spawned, Step, create, refuse, run, kill, cancel, begin, Reach,
  here, next,
}
use cnc_robot_control.Tasks.TaskLaws.{entry_of, listed}
use cnc_robot_control.Tasks.TaskList.{
  TaskInfo, Tasks, Threads, max_stack_size, create_task, list_insert_task,
}

-- What a call of `CreateTask` gives: 0 and the list as it was, or a list with one more entry.
abbrev Made : Tasks → Option ℕ → ℕ → ℕ × Tasks → Type 0
Made s entry arg (id, s') =
    ((id ≡ 0) × (s' ≡ s))
    ⊎ ((t : TaskInfo) × (s' ≡ listed s t)
        × New s.next_node t
        × (entry ≡ some t.entry_func)
        × (t.arg ≡ arg))

create_task-Made :
    (th : Threads) (name : Option Bytes) (stack_size : ℕ) (entry : Option ℕ) (arg : ℕ) (s : Tasks)
    → Always (λ r. Made s entry arg r) (create_task th name stack_size entry arg s)
unfolding create_task list_insert_task
create_task-Made th none stack_size entry arg s = inl (refl, refl)
create_task-Made th (some name) stack_size none arg s = inl (refl, refl)
create_task-Made th (some name) stack_size (some entry) arg s =
    elim (Bool-cases (stack_size == 0 || ltb max_stack_size stack_size)) [
      | inl e ↦ rw e (inl (refl, refl))
      | inr e ↦ rw e (elim (Bool-cases (th.malloc_info_ok s)) [
        | inr m ↦ rw m (inl (refl, refl))
        | inl m ↦ elim (Bool-cases (th.malloc_node_ok (record s { next_node = s.next_node + 1 }))) [
          | inl k ↦
              rw (m, k) (inr (entry_of s name stack_size entry arg, refl, (refl, refl), refl, refl))
          | inr k ↦ rw (m, k) tt
        ]
      ])
    ]

refused-Inv :
    (w : Process) (entry : Option ℕ) (arg : ℕ) (s : Tasks)
    → Inv w
    → Made w.tasks entry arg (0, s)
    → Inv (record w { tasks = s })
refused-Inv w entry arg s v (inl (z, e)) = rw e v
refused-Inv w entry arg s v (inr (t, e, n, e', r)) = rw e (listed-Inv w t v n.0)

created-Inv :
    (w : Process) (entry arg id : ℕ) (s : Tasks)
    → Inv w
    → 0 < id
    → Fresh id w
    → Made w.tasks (some entry) arg (id, s)
    → Inv (spawned id entry arg w s)
created-Inv w entry arg id s v p f (inl (z, e)) = absurd (omega arith)
created-Inv w entry arg id s v p f (inr (t, e, n, e', r)) =
    rw e (spawned-Inv id entry arg w v p f t n (cc) r)

Step-Inv : {w w' : Process} → Step w w' → Inv w → Inv w'
Step-Inv {w} (create th name stack_size entry arg id {s} p f e) v =
    created-Inv w entry arg id s v p f (
      subst (λ o. Always (λ r. Made w.tasks (some entry) arg r) o) e
        (create_task-Made th name stack_size (some entry) arg w.tasks))
Step-Inv {w} (refuse th name stack_size entry arg {s} e) v = refused-Inv w entry arg s v (
    subst (λ o. Always (λ r. Made w.tasks entry arg r) o) e
      (create_task-Made th name stack_size entry arg w.tasks))
Step-Inv {w} (run n) v = run-Inv w n v (w.workers n).place refl
Step-Inv {w} (kill id) v = kill-Inv w id v
Step-Inv {w} (cancel n k) v = stay-Inv w n v ended (λ a. cc) (λ k'. tt)

begin-Inv : Inv begin
unfolding find_node
begin-Inv = record {
  ids = record { distinct = λ m n a. cc; positive = λ n a. cc; old = λ n a. cc };
  clear = λ n h. refl;
  owns = λ n k. tt;
}

Reach-Inv : {w : Process} → Reach w → Inv w
Reach-Inv here = begin-Inv
Reach-Inv (next r st) = Step-Inv st (Reach-Inv r)

-- However the threads and the calls of `CreateTask` and `Task_kill` interleave: a thread that has not
-- been killed never uses an entry that has been freed, its entry stays on the list, from its first
-- statement on under its id, until it ends, and the function that it enters and the argument are those that
-- were given to the call of `CreateTask` that made it.
pub Reach-Owns :
    {w : Process} (n : ℕ)
    → Reach w
    → (w.workers n).killed ≡ false
    → Owns n
        (w.workers n).id
        (w.workers n).entry
        (w.workers n).arg
        (w.workers n).place
        w.tasks.task_list
Reach-Owns n r = (Reach-Inv r).owns n
