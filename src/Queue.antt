-- ===== src/Queue.antt =====
-- `Queue` of ipc/queue.hpp and ipc/queue.cc: how the objects of one name come to be and are removed.
-- A semaphore counts the writers. Each operation on it is one step, so that the constructors and
-- destructors of several processes interleave.
pub mod Writers
pub mod InProcess
pub mod Proto
mod Tests
use boat.Prelude.{
  ℕ, zero, suc, ◌+◌, ◌-◌, Bool, true, false, Option, none, some, List, [], ◌∷◌, ◌==◌, if◌then◌else◌,
}

-- The semaphore, whether the queue still goes by its name, and how many objects stand where in
-- their constructor or destructor.
pub record Shared : Type 0 where
  pub semaphore : ℕ
  pub named : Bool
  pub opening : ℕ
  pub opened : ℕ
  pub joining : ℕ
  pub probing : ℕ
  pub restoring : ℕ

abbrev pub fresh : Shared
fresh = record {
  semaphore = 0;
  named = true;
  opening = 0;
  opened = 0;
  joining = 0;
  probing = 0;
  restoring = 0;
}

-- `wait` of a semaphore at zero does not return, and `try_wait` fails.
abbrev pub post : Shared → Shared
post s = record s { semaphore = s.semaphore + 1 }

abbrev pub try_wait : Shared → Option Shared
try_wait s = if s.semaphore == 0 then none else some (record s { semaphore = s.semaphore - 1 })

pub data Event : Type 0 where
  writer_opens : Event
  writer_posts : Event
  reader_waits : Event
  reader_posts : Event
  closer_waits : Event
  closer_tries : Event
  closer_posts : Event

-- The constructor of a writer opens or creates both objects, and then posts.
pub writer_open : Shared → Option Shared
writer_open s = some (record s { opening = s.opening + 1 })

pub writer_post : Shared → Option Shared
writer_post s =
    if s.opening == 0
    then none
    else some (record (post s) { opening = s.opening - 1; opened = s.opened + 1 })

-- That of a reader takes one off the semaphore and puts it back.
pub reader_wait : Shared → Option Shared
reader_wait s = elim (try_wait s) [
  | none ↦ none
  | some t ↦ some (record t { joining = s.joining + 1 })
]

pub reader_post : Shared → Option Shared
reader_post s = if s.joining == 0 then none else some (record (post s) { joining = s.joining - 1 })

-- The destructor of a writer.
pub close_wait : Shared → Option Shared
close_wait s = if s.opened == 0 then none else elim (try_wait s) [
  | none ↦ none
  | some t ↦ some (record t { opened = s.opened - 1; probing = s.probing + 1 })
]

pub close_try : Shared → Option Shared
close_try s = if s.probing == 0 then none else elim (try_wait s) [
  | none ↦ some (record s { named = false; probing = s.probing - 1 })
  | some t ↦ some (record t { probing = s.probing - 1; restoring = s.restoring + 1 })
]

pub close_post : Shared → Option Shared
close_post s =
    if s.restoring == 0 then none else some (record (post s) { restoring = s.restoring - 1 })

abbrev pub dispatch : Event → Shared → Option Shared
dispatch writer_opens s = writer_open s
dispatch writer_posts s = writer_post s
dispatch reader_waits s = reader_wait s
dispatch reader_posts s = reader_post s
dispatch closer_waits s = close_wait s
dispatch closer_tries s = close_try s
dispatch closer_posts s = close_post s

-- `none` where the step cannot be taken. Behind the removal the name stands for new objects.
abbrev pub step : Event → Shared → Option Shared
step e s = if s.named then dispatch e s else none

pub run : List Event → Shared → Option Shared
run [] s = some s
run (e ∷ es) s = elim (step e s) [ none ↦ none | some t ↦ run es t ]
