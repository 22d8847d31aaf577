-- ===== src/Tasks/Invariant.antt =====
-- core/src/Tasks.c: the invariant of the threads and the list, and that each step keeps it.
use cnc_robot_control.Common.{
  ℕ, ◌≤◌, ◌<◌, ◌≡◌, ◌≢◌, ◌∙◌, refl, sym, ap, true, false, List, none, some, arith, ◌==◌, Bool-cases,
  Option-cases, inl, inr,
}
use mathlib.Core.Path.{subst}
use cnc_robot_control.Tasks.EntryLaws.{
  find_node-delete_in-none, find_node-set_id, find_node-set_id-none,
}
use cnc_robot_control.Tasks.Owners.{Listed, Owns, Owns-delete_in, Owns-set_id}
use cnc_robot_control.Tasks.Schedule.{
  Place, absent, begun, registered, named, entered, ended, dangling, Worker, Process, find_node,
  with_entry, thread_main, alive, update, moved,
}
use cnc_robot_control.Tasks.TaskList.{
  TaskInfo, Tasks, delete_in, set_id, thread_main_begins, list_delete_task,
}

-- Threads that are alive have ids of their own, and entries that have been made.
pub record Ids (next_node : ℕ) (f : ℕ → Worker) : Type 0 where
  pub distinct :
      (m n : ℕ) → alive (f m).place ≡ true → alive (f n).place ≡ true → (f m).id ≡ (f n).id → m ≡ n
  pub positive : (n : ℕ) → alive (f n).place ≡ true → 0 < (f n).id
  pub old : (n : ℕ) → alive (f n).place ≡ true → n < next_node

abbrev pub Owner : List TaskInfo → ℕ → Worker → Type 0
Owner ts n x = x.killed ≡ false → Owns n x.id x.entry x.arg x.place ts

-- No entry is on the list before it is made, and each thread that has not been killed has its own.
pub record Inv (w : Process) : Type 0 where
  pub ids : Ids w.tasks.next_node w.workers
  pub clear : (n : ℕ) → w.tasks.next_node ≤ n → find_node n w.tasks.task_list ≡ none
  pub owns : (n : ℕ) → Owner w.tasks.task_list n (w.workers n)

pub Ids-keep :
    (next_node : ℕ) (f g : ℕ → Worker)
    → ((n : ℕ) → alive (g n).place ≡ true → (alive (f n).place ≡ true) × ((g n).id ≡ (f n).id))
    → Ids next_node f
    → Ids next_node g
Ids-keep next_node f g k i = record {
  distinct = λ m n a b e. i.distinct m n (k m a).0 (k n b).0 (sym (k m a).1 ∙ e ∙ (k n b).1);
  positive = λ n a. rw ((k n a).1) (i.positive n (k n a).0);
  old = λ n a. i.old n (k n a).0;
}

-- To show what holds of all threads after one has changed.
pub update-all :
    (P : ℕ → Worker → Type 0) (f : ℕ → Worker) (n : ℕ) (x : Worker)
    → P n x
    → ((m : ℕ) → m ≢ n → P m (f m))
    → (m : ℕ) → P m (update f n x m)
update-all P f n x p q m = elim (Bool-cases (m == n)) [
  | inl e ↦ let s : m ≡ n = ground (arith, e) in rw (e, s) p
  | inr e ↦ rw e (q m (ground (arith, e)))
]

moved-Ids :
    (next_node n : ℕ) (p : Place) (f : ℕ → Worker)
    → (alive p ≡ true → alive (f n).place ≡ true)
    → Ids next_node f
    → Ids next_node (update f n (record (f n) { place = p }))
moved-Ids next_node n p f k = Ids-keep next_node f (update f n (record (f n) { place = p })) (
    update-all (λ m x. alive x.place ≡ true → (alive (f m).place ≡ true) × (x.id ≡ (f m).id)) f n
      (record (f n) { place = p }) (λ a. (k a, refl)) (λ m h a. (a, refl)))

-- A step of the thread `n` that leaves the list `ts`.
moved-Inv :
    (w : Process) (n : ℕ) (p : Place) (ts : List TaskInfo)
    → Inv w
    → (alive p ≡ true → alive (w.workers n).place ≡ true)
    → ((m : ℕ) → find_node m w.tasks.task_list ≡ none → find_node m ts ≡ none)
    → Owner ts n (record (w.workers n) { place = p })
    → ((m : ℕ) → m ≢ n → Owner ts m (w.workers m))
    → Inv (moved w n (p, record w.tasks { task_list = ts }))
moved-Inv w n p ts v live empty own others = record {
  ids = moved-Ids w.tasks.next_node n p w.workers live v.ids;
  clear = λ m h. empty m (v.clear m h);
  owns = update-all (Owner ts) w.workers n (record (w.workers n) { place = p }) own others;
}

found :
    (n i f a : ℕ) (ts : List TaskInfo) (t : TaskInfo)
    → find_node n ts ≡ some t
    → Listed n i f a ts
    → (t.entry_func ≡ f) × (t.arg ≡ a)
found n i f a ts t e (t', e', z, p, q) = let same : some t ≡ some t' = sym e ∙ e' in (cc, cc)

module _ (w : Process) (n : ℕ) (v : Inv w) where
  -- What `n` owns, when it is at the place `p` and has not been killed.
  owned :
      (p : Place)
      → (w.workers n).place ≡ p
      → (w.workers n).killed ≡ false
      → Owns n (w.workers n).id (w.workers n).entry (w.workers n).arg p w.tasks.task_list
  owned p e k =
      let x = w.workers n in
      subst (λ q. Owns n x.id x.entry x.arg q w.tasks.task_list) e (v.owns n k)

  -- A step to `p` that leaves the list as it is.
  pub stay-Inv :
      (p : Place)
      → (alive p ≡ true → alive (w.workers n).place ≡ true)
      → Owner w.tasks.task_list n (record (w.workers n) { place = p })
      → Inv (moved w n (p, w.tasks))
  stay-Inv p live own = moved-Inv w n p w.tasks.task_list v live (λ m h. h) own (λ m h. v.owns m)

  -- A use of the entry, which a thread that has not been killed finds on the list.
  use-Inv :
      (i : ℕ) (use_entry : TaskInfo → Place × Tasks)
      → alive (w.workers n).place ≡ true
      → ((w.workers n).killed ≡ false
          → Listed n i (w.workers n).entry (w.workers n).arg w.tasks.task_list)
      → ((t : TaskInfo) → find_node n w.tasks.task_list ≡ some t → Inv (moved w n (use_entry t)))
      → Inv (moved w n (with_entry (find_node n w.tasks.task_list) w.tasks use_entry))
  use-Inv i use_entry live own h = elim (Option-cases (find_node n w.tasks.task_list)) [
    | inl e ↦ rw e (stay-Inv dangling (λ a. live) (λ k. gone e (own k)))
    | inr (t, e) ↦ rw e (h t e)
  ]
    where
      gone :
          find_node n w.tasks.task_list ≡ none
          → Listed n i (w.workers n).entry (w.workers n).arg w.tasks.task_list
          → ⊥
      gone e (t, e', a, b, c) = cc

  pub run-Inv :
      (p : Place)
      → (w.workers n).place ≡ p
      → Inv (moved w n (thread_main n (w.workers n).id p w.tasks))
  unfolding thread_main thread_main_begins list_delete_task
  run-Inv absent e = stay-Inv absent (λ a. cc) (λ k. tt)
  run-Inv begun e =
      use-Inv 0 (λ t. (registered, thread_main_begins n (w.workers n).id w.tasks)) (ap alive e)
        (owned begun e)
        (λ t f.
          moved-Inv w n registered (set_id n (w.workers n).id w.tasks.task_list) v (λ a. ap alive e)
            (λ m. find_node-set_id-none m n (w.workers n).id w.tasks.task_list)
            (λ k.
              let (p, q) =
                found n 0 (w.workers n).entry (w.workers n).arg w.tasks.task_list t f
                  (owned begun e k) in
              (
                record t { thread_id = (w.workers n).id },
                find_node-set_id n (w.workers n).id w.tasks.task_list t f,
                refl,
                p,
                q,
              ))
            (λ m h k.
              Owns-set_id m (w.workers m).id (w.workers m).entry (w.workers m).arg
                (w.workers m).place n (w.workers n).id w.tasks.task_list h (v.owns m k)))
  run-Inv registered e =
      use-Inv (w.workers n).id (λ t. (named, w.tasks)) (ap alive e) (owned registered e)
        (λ t f. stay-Inv named (λ a. ap alive e) (owned registered e))
  run-Inv named e =
      use-Inv (w.workers n).id (λ t. (entered t.entry_func t.arg, w.tasks)) (ap alive e)
        (owned named e)
        (λ t f.
          stay-Inv (entered t.entry_func t.arg) (λ a. ap alive e)
            (λ k.
              let own = owned named e k in
              let (p, q) =
                found n (w.workers n).id (w.workers n).entry (w.workers n).arg w.tasks.task_list t f
                  own in
              (p, q, own)))
  run-Inv (entered g b) e =
      moved-Inv w n ended (delete_in (w.workers n).id w.tasks.task_list) v (λ a. cc)
        (λ m. find_node-delete_in-none m (w.workers n).id w.tasks.task_list) (λ k. tt)
        (λ m h k.
          Owns-delete_in m (w.workers m).id (w.workers m).entry (w.workers m).arg
            (w.workers m).place (w.workers n).id w.tasks.task_list (v.ids.positive n (ap alive e))
            (λ a s. h (v.ids.distinct m n a (ap alive e) s)) (v.owns m k))
  run-Inv ended e = stay-Inv ended (λ a. cc) (λ k. tt)
  run-Inv dangling e = stay-Inv dangling (λ a. ap alive e) (owned dangling e)
