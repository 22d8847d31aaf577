-- ===== src/Ipc/Sharing.antt =====
-- control/src/ipc.c: a thread that pushes positions, statement by statement, and a process that pops
-- them. A pop is one step here.
use cnc_robot_control.Common.{◌≡◌, Bool, true, false}
use cnc_robot_control.Ipc.Buffer.{
  PosData, PosBuffer, push_begin, push_position, push_timestamp, push_announce, push_end,
  pos_buffer_pop,
}

-- Where the writer stands in `pos_buffer_push`, and the datum that it pushes.
pub data Writer (A : Type 0) : Type 0 where
  idle : Writer A
  begun positioned stamped announced : PosData A → Writer A

-- The buffer, the writer, the last datum whose push has ended, and the last one that was popped.
pub record Sharing (A : Type 0) : Type 0 where
  pub buffer : PosBuffer A
  pub writer : Writer A
  pub latest : PosData A
  pub seen : PosData A

abbrev pub is_writing : {A : Type 0} → Writer A → Bool
is_writing idle = false
is_writing _ = true

-- The steps: the writer's next statement, or a pop.
pub data Step {A : Type 0} : Sharing A → Sharing A → Type 0 where
  begins :
      (s : Sharing A) (d : PosData A)
      → s.writer ≡ idle
      → Step s (record s { buffer = push_begin s.buffer; writer = begun d })
  positions :
      (s : Sharing A) (d : PosData A)
      → s.writer ≡ begun d
      → Step s (record s { buffer = push_position d.position s.buffer; writer = positioned d })
  stamps :
      (s : Sharing A) (d : PosData A)
      → s.writer ≡ positioned d
      → Step s (record s { buffer = push_timestamp d.timestamp s.buffer; writer = stamped d })
  announces :
      (s : Sharing A) (d : PosData A)
      → s.writer ≡ stamped d
      → Step s (record s { buffer = push_announce s.buffer; writer = announced d })
  ends :
      (s : Sharing A) (d : PosData A)
      → s.writer ≡ announced d
      → Step s (record s { buffer = push_end s.buffer; writer = idle; latest = d })
  pops :
      (s : Sharing A)
      → Step s
          (record s { buffer = (pos_buffer_pop s.buffer).1; seen = (pos_buffer_pop s.buffer).0 })

pub data Reaches {A : Type 0} (s : Sharing A) : Sharing A → Type 0 where
  here : Reaches s s
  onward : {s' s'' : Sharing A} → Reaches s s' → Step s' s'' → Reaches s s''
