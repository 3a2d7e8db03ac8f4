-- ===== src/Logger.antt =====
-- src/logger: the line of an entry, and the thread that writes the entries of the queue. A step of the
-- writer is a test of its loop, a test of its wait, a pop, or the output of an entry; it holds
-- `mtx` from the end of its wait to the next test of the loop. A wait may test its condition at any
-- time. The clock, the source location and the text of `std::format(fmt, …)` are arguments. The last
-- two fields of `Logger` note what has happened.
pub mod Drain
use hpserver.Prelude.{
  ℕ, zero, suc, ◌+◌, ◌-◌, ◌%◌, Bool, true, false, not, ◌&&◌, ◌||◌, ◌==◌, Option, none, some, List,
  [], ◌∷◌, ◌++◌, if◌then◌else◌, Bytes, length, replicate, drop, codes,
}
use hpserver.Text.{to_string, rfind}
use hpserver.Util.RingBuffer.{RingBuffer, ring_buffer, is_empty}
use hpserver.Util.RingBuffer as Ring

pub data LogLevel : Type 0 where
  info : LogLevel
  warning : LogLevel
  error : LogLevel
  debug : LogLevel

abbrev pub level_str : LogLevel → Bytes
level_str info = codes "INFO"
level_str warning = codes "WARN"
level_str error = codes "ERROR"
level_str debug = codes "DEBUG"

-- The fields of `std::tm` with their offsets added, and the milliseconds.
pub record LogTime : Type 0 where
  pub year : ℕ
  pub month : ℕ
  pub day : ℕ
  pub hour : ℕ
  pub minute : ℕ
  pub second : ℕ
  pub millisecond : ℕ

-- `{:0wd}`
abbrev pub padded : ℕ → ℕ → Bytes
padded w n = replicate (w - length (to_string n)) b'0' ++ to_string n

-- `std::filesystem::path::filename`
abbrev pub filename_from : Bytes → Option ℕ → Bytes
filename_from path none = path
filename_from path (some slash) = drop (slash + 1) path

abbrev pub filename : Bytes → Bytes
filename path = filename_from path (rfind b'/' path)

abbrev pub date : LogTime → Bytes
date t = padded 4 t.year ++ (codes "-" ++ (padded 2 t.month ++ (codes "-" ++ padded 2 t.day)))

abbrev pub clock : LogTime → Bytes
clock t =
    padded 2 t.hour
    ++ (codes ":"
        ++ (padded 2 t.minute
            ++ (codes ":" ++ (padded 2 t.second ++ (codes "." ++ padded 3 t.millisecond)))))

abbrev pub log_entry : LogTime → LogLevel → Bytes → ℕ → Bytes → Bytes
log_entry t level file_name line user_msg =
    codes "["
    ++ (date t
        ++ (codes " "
            ++ (clock t
                ++ (codes "] ["
                    ++ (level_str level
                        ++ (codes "] ["
                            ++ (filename file_name
                                ++ (codes ":"
                                    ++ (to_string line ++ (codes "] " ++ user_msg))))))))))

-- Where the writer stands: before the test of its loop, in `cv.wait`, before `pop`, or before the
-- output.
pub data Writer : Type 0 where
  not_started : Writer
  testing : Writer
  waiting : Writer
  popping : Writer
  writing : Bytes → Writer
  ended : Writer

pub record Logger : Type 0 where
  pub log_queue : Option (RingBuffer Bytes)
  pub running : Bool
  pub writer : Writer
  pub out : List Bytes
  pub accepted : List Bytes

abbrev pub logger : Logger
logger = record { log_queue = none; running = false; writer = not_started; out = []; accepted = [] }

abbrev pub init : ℕ → Logger → Logger
init buffer_size l = record l {
  log_queue = some (ring_buffer [] buffer_size);
  running = true;
  writer = testing;
}

abbrev pub noted : Bool → Bytes → Logger → Logger
noted ok entry l = if ok then record l { accepted = l.accepted ++ (entry ∷ []) } else l

-- The end of `write_log`: an entry that the queue refuses is dropped.
abbrev pub write_to : Option (RingBuffer Bytes) → Bytes → Logger → Logger
write_to none entry l = l
write_to (some q) entry l =
    let (q', ok) = Ring.push [] q entry in noted ok entry (record l { log_queue = some q' })

abbrev pub write_log : LogTime → LogLevel → Bytes → ℕ → Bytes → Logger → Logger
write_log t level file_name line user_msg l =
    write_to l.log_queue (log_entry t level file_name line user_msg) l

-- `log_queue && !log_queue->empty()`
abbrev pub has_entry : Option (RingBuffer Bytes) → Bool
has_entry none = false
has_entry (some q) = not (is_empty [] q)

abbrev pub popped : Option Bytes → Writer
popped none = testing
popped (some entry) = writing entry

abbrev pub pop_entry : Option (RingBuffer Bytes) → Logger → Logger
pop_entry none l = l
pop_entry (some q) l =
    let (q', entry) = Ring.pop [] q in record l { log_queue = some q'; writer = popped entry }

abbrev pub step_at : Writer → Logger → Logger
step_at not_started l = l
step_at testing l = record l {
  writer = if l.running || has_entry l.log_queue then waiting else ended;
}
step_at waiting l = record l {
  writer = if not l.running || has_entry l.log_queue then popping else waiting;
}
step_at popping l = pop_entry l.log_queue l
step_at (writing entry) l = record l { out = l.out ++ (entry ∷ []); writer = testing }
step_at ended l = l

unfoldable pub writer_step : Logger → Logger
writer_step l = step_at l.writer l

abbrev pub is_mtx_free : Writer → Bool
is_mtx_free not_started = true
is_mtx_free testing = true
is_mtx_free waiting = true
is_mtx_free popping = false
is_mtx_free (writing entry) = false
is_mtx_free ended = true

-- The store of `~logger`, which waits for `mtx`.
abbrev pub stop : Logger → Logger
stop l = if is_mtx_free l.writer then record l { running = false } else l

unfoldable pub run_writer : ℕ → Logger → Logger
run_writer zero l = l
run_writer (suc n) l = run_writer n (writer_step l)

-- What the threads do after `init`.
pub data Logged (buffer_size : ℕ) : Logger → Type 0 where
  started : Logged buffer_size (init buffer_size logger)
  logs :
      (t : LogTime) (level : LogLevel) (file_name : Bytes) (line : ℕ) (user_msg : Bytes)
      (l : Logger)
      → Logged buffer_size l
      → Logged buffer_size (write_log t level file_name line user_msg l)
  writes : (l : Logger) → Logged buffer_size l → Logged buffer_size (writer_step l)
  stops : (l : Logger) → Logged buffer_size l → Logged buffer_size (stop l)
