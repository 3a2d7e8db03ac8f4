-- ===== src/Tests/Queue.antt =====
-- Tests of the queue of nodes and of the logger: two entries, a stop, and the end of the writer.
use hpserver.Prelude.{ℕ, ◌≡◌, refl, arith, some, List, [], ◌∷◌, codes}
use hpserver.Util.ThreadsafeQueue.{Call, pushes, pops, tests, threadsafe_queue, run_calls}
use hpserver.Util.ThreadsafeQueue.Refine as Queue
use hpserver.Util.ThreadsafeQueue.Refine.{list_calls}
use hpserver.Util.RingBuffer.{ring_buffer, push}
use hpserver.Logger.{
  LogTime, info, error, ended, Logger, logger, init, write_log, stop, run_writer, Logged, started,
  logs, stops,
}
use hpserver.Logger.Drain as Drain
use hpserver.Logger.Drain.Ending as Ending
use hpserver.Logger.Drain.{IsKept}

abbrev calls : List (Call ℕ)
calls = pops [] ∷ pushes 3 ∷ pops (4 ∷ []) ∷ tests ∷ pops [] ∷ []

run_calls-list_calls_example : run_calls calls threadsafe_queue ≡ some (list_calls calls [])
run_calls-list_calls_example = Queue.run_calls-list_calls calls

abbrev noon : LogTime
noon = record {
  year = 2026;
  month = 1;
  day = 2;
  hour = 12;
  minute = 0;
  second = 5;
  millisecond = 7;
}

abbrev entered : Logger
entered =
    write_log noon error (codes "/a/b.cpp") 9 (codes "two")
      (write_log noon info (codes "/a/b.cpp") 7 (codes "one") (init 4 logger))

abbrev stopping : Logger
stopping = stop entered

stopping-Logged : Logged 4 stopping
stopping-Logged = stops entered (
    logs noon error (codes "/a/b.cpp") 9 (codes "two")
      (write_log noon info (codes "/a/b.cpp") 7 (codes "one") (init 4 logger))
      (logs noon info (codes "/a/b.cpp") 7 (codes "one") (init 4 logger) started))

Logged-IsKept_example : IsKept stopping
Logged-IsKept_example = Drain.Logged-IsKept 4 stopping stopping-Logged

run_writer-accepted_example :
    ((run_writer 40 stopping).writer ≡ ended) × ((run_writer 40 stopping).out ≡ stopping.accepted)
unfolding push ring_buffer
run_writer-accepted_example =
    Ending.run_writer-accepted 4 stopping stopping-Logged refl refl 40 (omega arith)
