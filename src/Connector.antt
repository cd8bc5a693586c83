-- ===== src/Connector.antt =====
-- src/connectorthread.cxx, with the connection of src/socketappender.cxx, of src/syslogappender.cxx
-- and of src/socket.cxx: an appender whose own thread connects again when a write has failed.
--
-- A step runs under the appender's or the thread's mutex, or between two of them, and the schedule
-- of the steps is a list. Waiting, with its time limit, may end at any time. What the system does
-- with a write or a connection is part of the schedule. The build is the one with threads.
pub mod Runs
use log4cplus.Common.{Bool, true, false, not, ◌&&◌, List, [], ◌∷◌, if◌then◌else◌}

-- Where the thread is: in `timed_wait`; past it; past the check of the exit flag; past the check of
-- the socket; with a new socket that is open; in `sleep_for`; at its end.
pub data Place : Type 0 where
  waiting woken resetting connecting holding sleeping ended : Place

pub record Connection : Type 0 where
  pub is_open : Bool
  pub connected : Bool
  pub triggered : Bool
  pub exit_flag : Bool
  pub place : Place

-- `openSocket` and `initConnector`; `connects` tells whether the first connection succeeds.
abbrev pub start : Bool → Connection
start connects = record {
  is_open = connects;
  connected = true;
  triggered = false;
  exit_flag = false;
  place = waiting;
}

-- `Socket::write`, which closes the socket if it fails; a closed socket cannot be written.
unfoldable pub write : Bool → Connection → Connection × Bool
write sends c = if c.is_open && sends then (c, true) else (record c { is_open = false }, false)

-- `append` of an event; the flag tells whether it has been sent. `converts` tells whether the event
-- fits in the message buffer: one that does not is given up.
unfoldable pub append : Bool → Bool → Connection → Connection × Bool
unfolding write
append converts sends c =
    let (c', sent) = write sends c in
    if not c.connected
    then (record c { triggered = true }, false)
    else if not converts
    then (c, false)
    else if sent
    then (c', true)
    else (record c' { connected = false; triggered = true }, false)

-- A step of `ConnectorThread::run`; `connects` tells whether a connection succeeds.
unfoldable pub run_at : Bool → Place → Connection → Connection
run_at connects waiting c = record c { place = woken }
run_at connects woken c =
    if c.exit_flag
    then record c { place = ended }
    else record c { place = resetting; triggered = false }
run_at connects resetting c =
    if c.is_open then record c { place = waiting } else record c { place = connecting }
run_at connects connecting c =
    if connects then record c { place = holding } else record c { place = sleeping }
run_at connects holding c = record c { is_open = true; connected = true; place = waiting }
run_at connects sleeping c = record c { place = waiting }
run_at connects ended c = c

unfoldable pub run_step : Bool → Connection → Connection
unfolding run_at
run_step connects c = run_at connects c.place c

-- `terminate`, up to the join.
unfoldable pub terminate : Connection → Connection
terminate c = record c { exit_flag = true; triggered = true }

-- The steps of a schedule.
pub data Act : Type 0 where
  event : Bool → Bool → Act
  thread : Bool → Act
  stop : Act

unfoldable pub act : Act → Connection → Connection
unfolding append run_step terminate
act (event converts sends) c = (append converts sends c).0
act (thread connects) c = run_step connects c
act stop c = terminate c

unfoldable pub acts : List Act → Connection → Connection
unfolding act
acts [] c = c
acts (a ∷ as') c = acts as' (act a c)
