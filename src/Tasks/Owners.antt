-- ===== src/Tasks/Owners.antt =====
-- core/src/Tasks.c: what holds of the threads and the entries that they were given.
use cnc_robot_control.Common.{
  ℕ, ◌<◌, ◌≡◌, ◌≢◌, ◌∙◌, refl, sym, true, List, [], ◌∷◌, ◌++◌, some, arith, inl, inr, ◌⊎◌,
}
use cnc_robot_control.Tasks.EntryLaws.{find_node-delete_in, find_node-set_id_ne, find_node-append}
use cnc_robot_control.Tasks.Schedule.{
  Place, absent, begun, registered, named, entered, ended, dangling, find_node, alive,
}
use cnc_robot_control.Tasks.TaskList.{TaskInfo, delete_in, set_id}

-- The entry `n` is on the list, with an id and the function and argument given.
abbrev pub Listed : ℕ → ℕ → ℕ → ℕ → List TaskInfo → Type 0
Listed n id f a ts =
    (t : TaskInfo) × (find_node n ts ≡ some t)
    × (t.thread_id ≡ id)
    × (t.entry_func ≡ f)
    × (t.arg ≡ a)

-- A thread has its entry on the list until it ends: with the id 0 before its first statement, and with
-- its own id from then on. It is in no other function than the one given, with the argument given.
abbrev pub Owns : ℕ → ℕ → ℕ → ℕ → Place → List TaskInfo → Type 0
Owns n id f a absent ts = Unit
Owns n id f a begun ts = Listed n 0 f a ts
Owns n id f a registered ts = Listed n id f a ts
Owns n id f a named ts = Listed n id f a ts
Owns n id f a (entered g b) ts = (g ≡ f) × (b ≡ a) × Listed n id f a ts
Owns n id f a ended ts = Unit
Owns n id f a dangling ts = ⊥

module _ (n id f a : ℕ) where
  -- What keeps the entry, kept with the id 0 or the thread's own, keeps what the thread owns.
  Owns-keep :
      (p : Place) (ts ts' : List TaskInfo)
      → (alive p ≡ true → (i : ℕ) → (i ≡ 0) ⊎ (i ≡ id) → Listed n i f a ts → Listed n i f a ts')
      → Owns n id f a p ts
      → Owns n id f a p ts'
  Owns-keep absent ts ts' k o = tt
  Owns-keep begun ts ts' k o = k refl 0 (inl refl) o
  Owns-keep registered ts ts' k o = k refl id (inr refl) o
  Owns-keep named ts ts' k o = k refl id (inr refl) o
  Owns-keep (entered g b) ts ts' k (e, e', o) = (e, e', k refl id (inr refl) o)
  Owns-keep ended ts ts' k o = tt
  Owns-keep dangling ts ts' k o = o

  pub Owns-delete_in :
      (p : Place) (j : ℕ) (ts : List TaskInfo)
      → 0 < j
      → (alive p ≡ true → id ≢ j)
      → Owns n id f a p ts
      → Owns n id f a p (delete_in j ts)
  Owns-delete_in p j ts q h = Owns-keep p ts (delete_in j ts) (λ live i own (t, e, e', r, r').
      (t, find_node-delete_in n j ts t e (other i t (h live) e' own), e', r, r'))
    where
      other :
          (i : ℕ) (t : TaskInfo) → id ≢ j → t.thread_id ≡ i → (i ≡ 0) ⊎ (i ≡ id) → t.thread_id ≢ j
      other i t d e (inl z) = λ s. absurd (omega arith)
      other i t d e (inr z) = λ s. d (sym z ∙ sym e ∙ s)

  pub Owns-set_id :
      (p : Place) (m j : ℕ) (ts : List TaskInfo)
      → n ≢ m
      → Owns n id f a p ts
      → Owns n id f a p (set_id m j ts)
  Owns-set_id p m j ts h =
      Owns-keep p ts (set_id m j ts)
        (λ live i own (t, e, e', r, r'). (t, find_node-set_id_ne n m j ts h ∙ e, e', r, r'))

  pub Owns-append :
      (p : Place) (x : TaskInfo) (ts : List TaskInfo)
      → Owns n id f a p ts
      → Owns n id f a p (ts ++ x ∷ [])
  Owns-append p x ts =
      Owns-keep p ts (ts ++ x ∷ [])
        (λ live i own (t, e, e', r, r'). (t, find_node-append n ts x t e, e', r, r'))
