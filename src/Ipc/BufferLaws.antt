-- ===== src/Ipc/BufferLaws.antt =====
-- control/src/ipc.c: what a reader of the double buffer sees.
use mathlib.Core.Path.{subst}
use cnc_robot_control.Common.{
  ℕ, ◌≤◌, ◌≡◌, ◌≢◌, ◌∙◌, refl, ap, true, some, arith, if◌then◌else◌, Bool-cases, inl, inr,
}
use cnc_robot_control.Ipc.Buffer.{
  PosData, PosBuffer, xor_one, zero_data, zeroed, push_begin, push_position, push_timestamp,
  push_announce, push_end, put_data, pop_check, pop_flip, pop_taken, pop_copy, pos_buffer_push,
  pos_buffer_pop,
}
use cnc_robot_control.Ipc.Sharing.{
  Writer, idle, begun, positioned, stamped, announced, Sharing, is_writing, Step, begins, positions,
  stamps, announces, ends, pops, Reaches, here, onward,
}
use cnc_robot_control.Time.Calc.{Timespec}

-- The slot that the reader does not use.
abbrev pub back : {A : Type 0} → PosBuffer A → PosData A
back b = b.slots (xor_one b.r_ptr)

-- What the slot of the writer holds, by the place where it stands.
abbrev pub Written : {A : Type 0} → Writer A → Sharing A → Type 0
Written idle s = if s.buffer.new_available then back s.buffer ≡ s.latest else s.latest ≡ s.seen
Written (begun d) s = Unit
Written (positioned d) s = (back s.buffer).position ≡ d.position
Written (stamped d) s = back s.buffer ≡ d
Written (announced d) s = (back s.buffer ≡ d) × (s.buffer.new_available ≡ true)

-- The reader's slot holds what was popped last, and the flag tells where the writer stands.
pub record IsShared {A : Type 0} (s : Sharing A) : Type 0 where
  pub bounded : s.buffer.r_ptr ≤ 1
  pub reader : s.buffer.slots s.buffer.r_ptr ≡ s.seen
  pub flag : s.buffer.w_flag ≡ is_writing s.writer
  pub written : Written s.writer s

xor_one-bounded : (i : ℕ) → i ≤ 1 → (xor_one i ≤ 1) × (xor_one i ≢ i) × (xor_one (xor_one i) ≡ i)
xor_one-bounded i h = ground arith

module _ {A : Type 0} (s : Sharing A) where
  Written-stale :
      (wr : Writer A)
      → s.buffer.slots s.buffer.r_ptr ≡ s.seen
      → Written wr s
      → Written wr (record s { seen = pop_copy s.buffer })
  Written-stale idle e h = ground (arith, e)
  Written-stale (begun d) e h = tt
  Written-stale (positioned d) e h = h
  Written-stale (stamped d) e h = h
  Written-stale (announced d) e h = h

  Written-fresh :
      (wr : Writer A)
      → pop_check s.buffer ≡ true
      → s.buffer.w_flag ≡ is_writing wr
      → Written wr s
      → let b = pop_taken (pop_flip s.buffer) in
        Written wr (record s { buffer = b; seen = pop_copy b })
  Written-fresh idle c f h = ground (arith, c)
  Written-fresh (begun d) c f h = tt
  Written-fresh (positioned d) c f h = absurd (ground (arith, c, f))
  Written-fresh (stamped d) c f h = absurd (ground (arith, c, f))
  Written-fresh (announced d) c f h = absurd (ground (arith, c, f))

module _ {A : Type 0} (s : Sharing A) (v : IsShared s) where
  pop-fresh :
      pop_check s.buffer ≡ true
      → let b = pop_taken (pop_flip s.buffer) in
        IsShared (record s { buffer = b; seen = pop_copy b })
  pop-fresh c = record {
    bounded = (xor_one-bounded s.buffer.r_ptr v.bounded).0;
    reader = refl;
    flag = v.flag;
    written = Written-fresh s s.writer c v.flag v.written;
  }

  pop-stale : IsShared (record s { seen = pop_copy s.buffer })
  pop-stale = record {
    bounded = v.bounded;
    reader = refl;
    flag = v.flag;
    written = Written-stale s s.writer v.reader v.written;
  }

  pop-IsShared :
      IsShared
        (record s { buffer = (pos_buffer_pop s.buffer).1; seen = (pos_buffer_pop s.buffer).0 })
  unfolding pos_buffer_pop
  pop-IsShared = elim (Bool-cases (pop_check s.buffer)) [
    | inl fresh ↦ rw fresh (pop-fresh fresh)
    | inr stale ↦ rw stale pop-stale
  ]

put-reader :
    {A : Type 0} (b : PosBuffer A) (d : PosData A)
    → b.r_ptr ≤ 1
    → (put_data (xor_one b.r_ptr) d b).slots b.r_ptr ≡ b.slots b.r_ptr
put-reader b d h = ground (arith, (xor_one-bounded b.r_ptr h).1)

put-back :
    {A : Type 0} (b : PosBuffer A) (d : PosData A) → back (put_data (xor_one b.r_ptr) d b) ≡ d
put-back b d = ground arith

Written-at :
    {A : Type 0} (s : Sharing A) (wr : Writer A) → s.writer ≡ wr → IsShared s → Written wr s
Written-at s wr e v = subst (λ x. Written x s) e v.written

flag-at :
    {A : Type 0} (s : Sharing A) (wr : Writer A)
    → s.writer ≡ wr
    → IsShared s
    → s.buffer.w_flag ≡ is_writing wr
flag-at s wr e v = v.flag ∙ ap is_writing e

Step-IsShared : {A : Type 0} (s s' : Sharing A) → Step s s' → IsShared s → IsShared s'
Step-IsShared _ _ (begins s d e) v = record {
  bounded = v.bounded;
  reader = v.reader;
  flag = refl;
  written = tt;
}
Step-IsShared _ _ (positions s d e) v =
    let new = record (back s.buffer) { position = d.position } in
    record {
      bounded = v.bounded;
      reader = put-reader s.buffer new v.bounded ∙ v.reader;
      flag = flag-at s (begun d) e v;
      written = ap (λ (x : PosData _). x.position) (put-back s.buffer new);
    }
Step-IsShared _ _ (stamps s d e) v =
    let new = record (back s.buffer) { timestamp = d.timestamp } in
    let placed = Written-at s (positioned d) e v in
    record {
      bounded = v.bounded;
      reader = put-reader s.buffer new v.bounded ∙ v.reader;
      flag = flag-at s (positioned d) e v;
      written =
          put-back s.buffer new ∙ ap (λ x. record { position = x; timestamp = d.timestamp }) placed;
    }
Step-IsShared _ _ (announces s d e) v = record {
  bounded = v.bounded;
  reader = v.reader;
  flag = flag-at s (stamped d) e v;
  written = (Written-at s (stamped d) e v, refl);
}
Step-IsShared _ _ (ends s d e) v =
    let (full, new) = Written-at s (announced d) e v in
    record { bounded = v.bounded; reader = v.reader; flag = refl; written = rw new full }
Step-IsShared _ _ (pops s) v = pop-IsShared s v

-- The state behind `init_pos_buffer`.
abbrev pub fresh_sharing : {A : Type 0} → A → Sharing A
fresh_sharing zero = record {
  buffer = zeroed zero;
  writer = idle;
  latest = zero_data zero;
  seen = zero_data zero;
}

Reaches-IsShared :
    {A : Type 0} (zero : A) (s : Sharing A) → Reaches (fresh_sharing zero) s → IsShared s
Reaches-IsShared zero _ here = record {
  bounded = omega arith;
  reader = refl;
  flag = refl;
  written = refl;
}
Reaches-IsShared zero _ (onward {s'} {s''} r t) =
    Step-IsShared s' s'' t (Reaches-IsShared zero s' r)

pop_cases :
    {A : Type 0} (s : Sharing A) (wr : Writer A)
    → s.buffer.slots s.buffer.r_ptr ≡ s.seen
    → s.buffer.w_flag ≡ is_writing wr
    → Written wr s
    → (pos_buffer_pop s.buffer).0 ≡ (if is_writing wr then s.seen else s.latest)
unfolding pos_buffer_pop
pop_cases s idle r f h = ground arith
pop_cases s (begun d) r f h = ground arith
pop_cases s (positioned d) r f h = ground arith
pop_cases s (stamped d) r f h = ground arith
pop_cases s (announced d) r f h = ground arith

-- However pushes, statement by statement, and pops have alternated since the buffer was initialized: a
-- pop, taken as one step, gives the datum of the latest push if none is under way, and otherwise what
-- the pop before it gave. It never gives half of a datum.
pub pos_buffer_pop-latest :
    {A : Type 0} (zero : A) (s : Sharing A)
    → Reaches (fresh_sharing zero) s
    → (pos_buffer_pop s.buffer).0 ≡ (if is_writing s.writer then s.seen else s.latest)
pos_buffer_pop-latest zero s r =
    let v = Reaches-IsShared zero s r in pop_cases s s.writer v.reader v.flag v.written

-- When the first two statements of a push, which set the flag and the position, and no more of it fall
-- between the test of `pos_buffer_pop` and the statements under it, behind a whole push before: the pop
-- gives the new position with the time of the push before.
pub pos_buffer_pop-torn :
    {A : Type 0} (b : PosBuffer A) (p p' : A) (t : Timespec)
    → b.r_ptr ≤ 1
    → (b1 : PosBuffer A) × (pos_buffer_push (some b) p t ≡ some b1)
      × (pop_check b1 ≡ true)
      × (pop_copy (pop_taken (pop_flip (push_position p' (push_begin b1))))
          ≡ record { position = p'; timestamp = t })
unfolding pos_buffer_push
pos_buffer_pop-torn b p p' t h = (
  push_end (push_announce (push_timestamp t (push_position p (push_begin b)))),
  refl,
  refl,
  ground (arith, xor_one-bounded b.r_ptr h),
)
