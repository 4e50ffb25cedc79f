-- ===== src/Tests/Threads.antt =====
-- Tests and examples of the modules under `Shared` and `Monitor`.
use storm_byte_buffer.Prelude.{
  ℕ, ◌≡◌, ◌≢◌, ◌⊎◌, refl, inl, true, false, List, [], ◌∷◌, ◌++◌, map, none, some, pos, arith,
}
use storm_byte_buffer.Typedefs.{Position, Operation}
use storm_byte_buffer.Fifo.{seek, available_bytes}
use storm_byte_buffer.Fifo.Reading.{read_internal}
use storm_byte_buffer.Fifo.Writing.{write_internal}
use storm_byte_buffer.Fifo.Bounds.{IsValid}
use storm_byte_buffer.Shared
use storm_byte_buffer.Shared.{Shared, reading, dropping, blocked, ready}
use storm_byte_buffer.Shared.Refine.{read_internal_answers, answer, read_answer, view_shared}
use storm_byte_buffer.Monitor.{
  Call, writes, reads, seeks, closes, Monitor, Move, invokes, wakes, start, invoke, run, step, wake,
  pick, lull, rouse,
}
use storm_byte_buffer.Tape.{transfer}
use storm_byte_buffer.External.{fifo_reader}
use storm_byte_buffer.Fifo.Refine.{view}
use storm_byte_buffer.Shared.Foreign.{write_internal_from_closed}
use storm_byte_buffer.Monitor.Watchers.{AreWatched}
use storm_byte_buffer.Monitor.Wakeups.{no_lost_wakeup, seek_loses_wakeup}
use storm_byte_buffer.Monitor.Order.{threads_first_in_first_out, all_given, all_taken, ahead}
use storm_byte_buffer.Monitor.Lasting.{IsRefused, IsBare, AreAll}
use storm_byte_buffer.Monitor.Eof.{eof_stays}
use storm_byte_buffer.Monitor.Shutdown.{shutdown_frees, returned, wake_times}
use storm_byte_buffer.Tests.Setup.{plain, started, two}

abbrev opened : Shared
opened = record { fifo = started; closed = false; error = false }

-- Thread 1 asks for more than there is; thread 2 writes, and thread 1 comes through.
abbrev schedule : List Move
schedule = invokes 1 (reads 3 Operation.extract) ∷ wakes 0 ∷ invokes 2 (writes 0 two) ∷ wakes 0 ∷ []

schedule_replies :
    (run schedule (record { shared = opened; waiters = [] })).0
    ≡ none
      ∷ none
      ∷ some (record { thread = 2; call = writes 0 two; done = true; out = [] })
      ∷ some (record {
        thread = 1;
        call = reads 3 Operation.extract;
        done = true;
        out = 20 ∷ 30 ∷ 40 ∷ [];
      })
      ∷ []
unfolding run step invoke wake pick start Shared.read_internal Shared.write_internal Shared.resume
    Shared.wait Shared.ready write_internal read_internal available_bytes lull
schedule_replies = refl

-- Thread 1 sleeps until three bytes are unread.
abbrev sleeping : Monitor
sleeping = record {
  shared = opened;
  waiters = record { thread = 1; need = 3; pending = reading 3 Operation.read; awake = false } ∷ [];
}

read_internal_answers_example :
    answer (Shared.read_internal 3 Operation.read opened)
    ≡ read_answer 3 Operation.read (view_shared opened)
read_internal_answers_example =
    read_internal_answers opened 3 Operation.read (omega arith) (omega arith)

no_lost_wakeup_example :
    let m = (run schedule (record { shared = opened; waiters = [] })).1 in
    IsValid m.shared.fifo × AreWatched m.shared m.waiters
no_lost_wakeup_example = no_lost_wakeup opened schedule (omega arith) (omega arith) (omega arith)

seek_loses_wakeup_example :
    let m' = (invoke 2 (seeks (pos 0) Position.absolute) sleeping).1 in
    (m'.waiters ≡ sleeping.waiters) × (ready 3 m'.shared ≡ true)
unfolding seek available_bytes
seek_loses_wakeup_example =
    seek_loses_wakeup sleeping 2 (pos 0) Position.absolute
      (record { thread = 1; need = 3; pending = reading 3 Operation.read; awake = false }) [] refl
      (omega arith) (omega arith) (omega arith)

threads_first_in_first_out_example :
    let (es, m) = run schedule (record { shared = opened; waiters = [] }) in
    (20 ∷ 30 ∷ []) ++ all_given es ≡ all_taken es ++ ahead m
threads_first_in_first_out_example =
    threads_first_in_first_out opened schedule (omega arith) (omega arith) (omega arith)

shutdown_frees_example :
    let m' = (invoke 2 closes sleeping).1 in
    let (es, end) = run (wake_times 1) m' in
    (m'.waiters ≡ map rouse sleeping.waiters)
    × (end.waiters ≡ [])
    × (returned es ≡ 1 ∷ [])
    × ((d : Call) (n : ℕ) (p : Shared.Pending) → start d m'.shared ≢ blocked n p)
shutdown_frees_example = shutdown_frees 2 closes sleeping (inl refl)

abbrev ended : Shared
ended = record { fifo = started; closed = true; error = false }

-- The buffer is closed and has got a byte all the same.
write_internal_from_closed_example :
    let (done, t', written) = Shared.write_internal_from fifo_reader 1 started ended in
    let given = transfer 1 (10 ∷ 20 ∷ 30 ∷ []) Operation.read (view started) in
    (Shared.write_internal 1 two ended
      ≡ record { shared = ended; done = false; out = []; notify = false })
    × (done ≡ given.done)
    × (view t' ≡ given.source)
    × (written ≡ record {
      shared = record ended { fifo = record started { buffer = given.out } };
      done = given.done;
      out = [];
      notify = false;
    })
write_internal_from_closed_example = write_internal_from_closed 1 two ended (omega arith) refl

-- Closed, with all bytes read, while thread 1 is in a call that waits.
abbrev spent : Monitor
spent = record sleeping {
  shared = record { fifo = record started { position_offset = 3 }; closed = true; error = false };
}

abbrev late : List Move
late =
    invokes 2 (writes 0 two)
    ∷ wakes 0
    ∷ invokes 3 (reads 0 Operation.extract)
    ∷ invokes 3 closes
    ∷ []

eof_stays_example :
    let (es, m') = run late spent in
    (Shared.eof m'.shared ≡ true) × AreAll IsRefused es × (AreAll IsBare es ⊎ (false ≡ true))
unfolding Shared.eof available_bytes
eof_stays_example = eof_stays late spent (omega arith) refl
