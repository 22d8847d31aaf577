-- ===== src/Tasks/Changes.antt =====
-- core/src/Tasks.c: killing and creating tasks keeps the invariant.
use cnc_robot_control.Common.{
  ℕ, ◌+◌, ◌≤◌, ◌<◌, ◌≡◌, ◌≢◌, ◌∙◌, refl, sym, ap, true, false, ◌&&◌, List, [], ◌∷◌, ◌++◌, none,
  arith, ◌==◌, Bool-cases, inl, inr,
}
use cnc_robot_control.Tasks.EntryLaws.{find_node-delete_in-none, find_node-append_none}
use cnc_robot_control.Tasks.Invariant.{Ids, Owner, Inv, Ids-keep, update-all}
use cnc_robot_control.Tasks.Owners.{Owns, Owns-delete_in, Owns-append}
use cnc_robot_control.Tasks.Schedule.{
  begun, Worker, Process, find_node, alive, update, spawned, mark, Fresh,
}
use cnc_robot_control.Tasks.TaskLaws.{listed}
use cnc_robot_control.Tasks.TaskList.{TaskInfo, Tasks, list_delete_task, delete_in, task_kill}

mark-same : (id : ℕ) (x : Worker) → ((mark id x).place ≡ x.place) × ((mark id x).id ≡ x.id)
mark-same id x = elim (Bool-cases (alive x.place && x.id == id)) [
  | inl e ↦ rw e (refl, refl)
  | inr e ↦ rw e (refl, refl)
]

mark-Owner :
    (id n : ℕ) (x : Worker) (ts ts' : List TaskInfo)
    → ((alive x.place ≡ true → x.id ≢ id)
        → Owns n x.id x.entry x.arg x.place ts
        → Owns n x.id x.entry x.arg x.place ts')
    → Owner ts n x
    → Owner ts' n (mark id x)
mark-Owner id n x ts ts' h own = elim (Bool-cases (alive x.place && x.id == id)) [
  | inl e ↦ rw e (λ k. cc)
  | inr e ↦ rw e (λ k. h (λ a s. ground (arith, a, s, e)) (own k))
]

mark-Ids :
    (next_node id : ℕ) (f : ℕ → Worker) → Ids next_node f → Ids next_node (λ n. mark id (f n))
mark-Ids next_node id f =
    Ids-keep next_node f (λ n. mark id (f n))
      (λ n a. (sym (ap alive (mark-same id (f n)).0) ∙ a, (mark-same id (f n)).1))

pub kill-Inv :
    (w : Process) (id : ℕ)
    → Inv w
    → Inv (record { tasks = task_kill id w.tasks; workers = λ n. mark id (w.workers n) })
unfolding task_kill list_delete_task
kill-Inv w id v = elim (Bool-cases (id == 0)) [
  | inl e ↦ rw e (record {
    ids = mark-Ids w.tasks.next_node id w.workers v.ids;
    clear = v.clear;
    owns = λ n.
        mark-Owner id n (w.workers n) w.tasks.task_list w.tasks.task_list (λ h o. o) (v.owns n);
  })
  | inr e ↦ rw e (record {
    ids = mark-Ids w.tasks.next_node id w.workers v.ids;
    clear = λ n h. find_node-delete_in-none n id w.tasks.task_list (v.clear n h);
    owns = λ n.
        let x = w.workers n in
        mark-Owner id n x w.tasks.task_list (delete_in id w.tasks.task_list)
          (Owns-delete_in n x.id x.entry x.arg x.place id w.tasks.task_list (ground (arith, e)))
          (v.owns n);
  })
]

-- What a new entry holds.
abbrev pub New : ℕ → TaskInfo → Type 0
New n t = (t.node ≡ n) × (t.thread_id ≡ 0)

append-clear :
    (s : Tasks) (t : TaskInfo)
    → t.node ≡ s.next_node
    → ((n : ℕ) → s.next_node ≤ n → find_node n s.task_list ≡ none)
    → (n : ℕ) → s.next_node + 1 ≤ n
    → find_node n (s.task_list ++ t ∷ []) ≡ none
append-clear s t e c n h =
    let other : (t.node == n) ≡ false = ground arith in
    find_node-append_none n s.task_list t (c n (omega arith)) ∙ rw other refl

later : (next_node : ℕ) (f : ℕ → Worker) → Ids next_node f → Ids (next_node + 1) f
later next_node f i = record {
  distinct = i.distinct;
  positive = i.positive;
  old = λ n a. omega (arith, i.old n a);
}

pub listed-Inv :
    (w : Process) (t : TaskInfo)
    → Inv w
    → t.node ≡ w.tasks.next_node
    → Inv (record w { tasks = listed w.tasks t })
listed-Inv w t v e = record {
  ids = later w.tasks.next_node w.workers v.ids;
  clear = append-clear w.tasks t e v.clear;
  owns = λ n k.
      let x = w.workers n in
      Owns-append n x.id x.entry x.arg x.place t w.tasks.task_list (v.owns n k);
}

module _ (id entry arg : ℕ) (w : Process) (v : Inv w) (positive : 0 < id) (fresh : Fresh id w) where
  abbrev newcomer : Worker
  newcomer = record { id = id; place = begun; killed = false; entry = entry; arg = arg }

  abbrev workers_then : ℕ → Worker
  workers_then = update w.workers w.tasks.next_node newcomer

  newcomer-Ids : Ids (w.tasks.next_node + 1) workers_then
  newcomer-Ids = record {
    distinct =
        update-all
          (λ m x.
            (n : ℕ)
            → alive x.place ≡ true
            → alive (workers_then n).place ≡ true
            → x.id ≡ (workers_then n).id
            → m ≡ n)
          w.workers w.tasks.next_node newcomer
          (update-all
            (λ n y. true ≡ true → alive y.place ≡ true → id ≡ y.id → w.tasks.next_node ≡ n)
            w.workers w.tasks.next_node newcomer (λ a b e. refl)
            (λ n h a b e. absurd (fresh n b (sym e))))
          (λ m h.
            update-all
              (λ n y.
                alive (w.workers m).place ≡ true
                → alive y.place ≡ true
                → (w.workers m).id ≡ y.id
                → m ≡ n)
              w.workers w.tasks.next_node newcomer (λ a b e. absurd (fresh m a e))
              (λ n h' a b e. v.ids.distinct m n a b e));
    positive =
        update-all (λ m x. alive x.place ≡ true → 0 < x.id) w.workers w.tasks.next_node newcomer
          (λ a. positive) (λ m h a. v.ids.positive m a);
    old =
        update-all (λ m x. alive x.place ≡ true → m < w.tasks.next_node + 1) w.workers
          w.tasks.next_node newcomer (λ a. omega arith) (λ m h a. omega (arith, v.ids.old m a));
  }

  pub spawned-Inv :
      (t : TaskInfo)
      → New w.tasks.next_node t
      → t.entry_func ≡ entry
      → t.arg ≡ arg
      → Inv (spawned id entry arg w (listed w.tasks t))
  spawned-Inv t (e, z) p q = record {
    ids = newcomer-Ids;
    clear = append-clear w.tasks t e v.clear;
    owns =
        update-all (Owner (w.tasks.task_list ++ t ∷ [])) w.workers w.tasks.next_node newcomer
          (λ k.
            let same : (t.node == w.tasks.next_node) ≡ true = ground (arith, e) in
            (
              t,
              find_node-append_none w.tasks.next_node w.tasks.task_list t
                    (v.clear w.tasks.next_node (omega arith))
                  ∙ rw same refl,
              z,
              p,
              q,
            ))
          (λ n h k.
            let x = w.workers n in
            Owns-append n x.id x.entry x.arg x.place t w.tasks.task_list (v.owns n k));
  }
