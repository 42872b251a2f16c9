-- ===== src/Communication/Thread.antt =====
-- The life of the communication thread in src/communication/CanCommunication.cpp: `start`, `stop` and
-- the loop of `run`, in any order. `start` and `stop` are called by one thread, as the program does.
use robot_controller.Prelude.{◌≡◌, ◌≢◌, ◌⊎◌, Bool, true, false, arith}

-- `thread_` and where its loop is.
pub data Place : Type 0 where
  no_thread : Place
  at_head : Place
  in_round : Place
  ended : Place

pub record Service : Type 0 where
  pub running : Bool
  pub place : Place
  -- `stop` is at its join
  pub stopping : Bool

abbrev pub new_service : Service
new_service = record { running = false; place = Place.no_thread; stopping = false }

-- `start`, from the value that `running_.exchange(true)` gives.
abbrev pub start_from : Bool → Service → Service
start_from true s = s
start_from false s = record s { running = true; place = Place.at_head }

unfoldable pub start : Service → Service
start s = start_from s.running s

-- `stop` up to its join, and its return.
unfoldable pub begin_stop : Service → Service
begin_stop s = record s { running = false; stopping = true }

unfoldable pub end_stop : Service → Service
end_stop s = record s { place = Place.no_thread; stopping = false }

-- The destructor, where its join returns at once.
abbrev pub destroy : Service → Service
destroy s = end_stop (begin_stop s)

-- The loop's next step: its test, or the rest of a round.
abbrev pub go_from : Place → Bool → Service → Service
go_from Place.at_head true s = record s { place = Place.in_round }
go_from Place.at_head false s = record s { place = Place.ended }
go_from Place.in_round running s = record s { place = Place.at_head }
go_from _ running s = s

unfoldable pub go : Service → Service
go s = go_from s.place s.running s

-- Whether the join returns, or is passed over.
abbrev pub IsOver : Place → Type 0
IsOver Place.no_thread = Unit
IsOver Place.ended = Unit
IsOver _ = ⊥

pub data Step (s : Service) : Service → Type 0 where
  starting : s.stopping ≡ false → Step s (start s)
  stopping : s.stopping ≡ false → Step s (begin_stop s)
  joining : s.stopping ≡ true → IsOver s.place → Step s (end_stop s)
  going : Step s (go s)

pub data Reach : Service → Type 0 where
  fresh : Reach new_service
  later : {s s' : Service} → Reach s → Step s s' → Reach s'

-- While `stop` is not at its join there is a thread just where the flag is set, and it has not
-- returned; while it is, the flag is clear.
abbrev Agrees : Service → Type 0
Agrees s =
    (s.stopping ≡ true → s.running ≡ false)
    × (s.stopping ≡ false → s.running ≡ false → s.place ≡ Place.no_thread)
    × (s.running ≡ true → (s.place ≢ Place.no_thread) × (s.place ≢ Place.ended))

Step-Agrees : {s s' : Service} → Step s s' → Agrees s → Agrees s'
unfolding start begin_stop end_stop go
Step-Agrees (starting free) v = ground arith
Step-Agrees (stopping free) v = ground arith
Step-Agrees (joining held over) v = ground arith
Step-Agrees going v = ground arith

Reach-Agrees : {s : Service} → Reach s → Agrees s
Reach-Agrees fresh = ground arith
Reach-Agrees (later r st) = Step-Agrees st (Reach-Agrees r)

-- In every interleaving, a call of `start` while no call of `stop` is under way leaves the thread
-- alone if there is one, which is then still in its loop; otherwise it starts one.
start_lem :
    {s : Service}
    → Reach s
    → s.stopping ≡ false
    → ((s.place ≡ Place.no_thread) × (start s ≡ record s { running = true; place = Place.at_head }))
      ⊎ ((s.place ≢ Place.no_thread) × (s.place ≢ Place.ended) × (start s ≡ s))
unfolding start
start_lem r free = let v = Reach-Agrees r in ground arith

-- Whatever state the thread is in, two of its own steps after `stop` has cleared the flag let the join
-- return; then there is no thread, and the flag is clear.
stop_completes :
    (s : Service)
    → let done = go (go (begin_stop s)) in
      IsOver done.place
      × ((end_stop done).place ≡ Place.no_thread)
      × ((end_stop done).running ≡ false)
unfolding begin_stop end_stop go
stop_completes s = ground arith
