-- ===== src/Tasks/EntryLaws.antt =====
-- core/src/Tasks.c: which entry a pointer leads to, after each change of the list.
use cnc_robot_control.Common.{
  ℕ, ◌≡◌, ◌≢◌, refl, List, [], ◌∷◌, ◌++◌, none, some, arith, ◌==◌, if◌then◌else◌,
}
use cnc_robot_control.Tasks.Schedule.{find_node}
use cnc_robot_control.Tasks.TaskList.{TaskInfo, delete_in, set_id}

pub find_node-delete_in :
    (n id : ℕ) (ts : List TaskInfo) (t : TaskInfo)
    → find_node n ts ≡ some t
    → t.thread_id ≢ id
    → find_node n (delete_in id ts) ≡ some t
unfolding find_node delete_in
find_node-delete_in n id [] t f h = cc
find_node-delete_in n id (x ∷ ts) t f h = ground (arith, f, h, find_node-delete_in n id ts t)

pub find_node-delete_in-none :
    (n id : ℕ) (ts : List TaskInfo) → find_node n ts ≡ none → find_node n (delete_in id ts) ≡ none
unfolding find_node delete_in
find_node-delete_in-none n id [] f = refl
find_node-delete_in-none n id (x ∷ ts) f = ground (arith, f, find_node-delete_in-none n id ts)

pub find_node-set_id :
    (n id : ℕ) (ts : List TaskInfo) (t : TaskInfo)
    → find_node n ts ≡ some t
    → find_node n (set_id n id ts) ≡ some (record t { thread_id = id })
unfolding find_node set_id
find_node-set_id n id [] t f = cc
find_node-set_id n id (x ∷ ts) t f = ground (arith, f, find_node-set_id n id ts t)

pub find_node-set_id_ne :
    (n m id : ℕ) (ts : List TaskInfo) → n ≢ m → find_node n (set_id m id ts) ≡ find_node n ts
unfolding find_node set_id
find_node-set_id_ne n m id [] h = refl
find_node-set_id_ne n m id (x ∷ ts) h = ground (arith, h, find_node-set_id_ne n m id ts)

pub find_node-set_id-none :
    (n m id : ℕ) (ts : List TaskInfo) → find_node n ts ≡ none → find_node n (set_id m id ts) ≡ none
unfolding find_node set_id
find_node-set_id-none n m id [] f = refl
find_node-set_id-none n m id (x ∷ ts) f = ground (arith, f, find_node-set_id-none n m id ts)

pub find_node-append :
    (n : ℕ) (ts : List TaskInfo) (x t : TaskInfo)
    → find_node n ts ≡ some t
    → find_node n (ts ++ x ∷ []) ≡ some t
unfolding find_node
find_node-append n [] x t f = cc
find_node-append n (y ∷ ts) x t f = ground (arith, f, find_node-append n ts x t)

pub find_node-append_none :
    (n : ℕ) (ts : List TaskInfo) (x : TaskInfo)
    → find_node n ts ≡ none
    → find_node n (ts ++ x ∷ []) ≡ (if x.node == n then some x else none)
unfolding find_node
find_node-append_none n [] x f = refl
find_node-append_none n (y ∷ ts) x f = ground (arith, f, find_node-append_none n ts x)
