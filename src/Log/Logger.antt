-- ===== src/Log/Logger.antt =====
-- src/flame/log/logger.cpp: where a logger writes, and what. The time and json_encode are
-- parameters; the result of uv_fs_open is an argument of the calls that open a file.
pub mod Writing
use Prim.Native.String.{String}
use php_flame.Prelude.{
  ℕ, ◌+◌, ◌<◌, ◌≡◌, Bool, true, false, ◌||◌, Option, none, some, List, [], ◌∷◌, ◌++◌, ◌==◌,
  if◌then◌else◌, Bytes, codes, same,
}

-- `file_`: 0, -2, -1, a descriptor, or the magnitude of another error.
pub data File : Type 0 where
  unopened to_stderr to_stdout : File
  opened : ℕ → File
  failed : ℕ → File

-- What was written: to one of the two, or through the pipe; and the coroutine that write_cb resumes.
pub data Event : Type 0 where
  prints_err : Bytes → Event
  prints_out : Bytes → Event
  pipes : Bytes → Event
  appends : ℕ → Bytes → Event
  resumes : ℕ → Event

-- `pipe_` is a pipe or null; `requests` has the coroutines of the writes that libuv has.
pub record Logger : Type 0 where
  pub path : Bytes
  pub file : File
  pub pipe : Bool
  pub requests : List (Option ℕ)
  pub events : List Event

unfoldable pub logger : Logger
logger = record { path = []; file = unopened; pipe = false; requests = []; events = [] }

unfoldable pub close_file : File → File
close_file (opened fd) = unopened
close_file file = file

unfoldable pub close : Logger → Logger
close l = record l { pipe = false; file = close_file l.file }

-- What uv_fs_open gives: a descriptor, or the magnitude of an error.
pub data Opened : Type 0 where
  descriptor : ℕ → Opened
  error : ℕ → Opened

-- An error is kept in `file_` too, where -1 and -2 have a meaning.
unfoldable pub kept_error : ℕ → File
kept_error e = if e == 1 then to_stdout else if e == 2 then to_stderr else failed e

-- Whether an exception was thrown.
unfoldable pub open_file : Opened → Logger → Bool × Logger
open_file (descriptor fd) l = (false, record l { file = opened fd; pipe = true })
open_file (error e) l = (true, record l { file = kept_error e })

unfoldable pub rotate_in : Bytes → Opened → Logger → Bool × Logger
rotate_in path result l =
    if same path [] || same path (codes "stderr") || same path (codes "stdlog")
    then (false, record l { file = to_stderr })
    else if same path (codes "stdout")
    then (false, record l { file = to_stdout })
    else open_file result l

-- `rotate()`, also that of `init` and `signal_cb`.
unfoldable pub rotate : Opened → Logger → Bool × Logger
rotate result l = rotate_in l.path result (close l)

-- `rotate(path)`, by which `set_output` ends.
unfoldable pub rotate_to : Bytes → Opened → Logger → Bool × Logger
rotate_to path result l = rotate result (record l { path = path })

-- `write(out)`: whether libuv has the data; `none` is the use of a null pipe.
unfoldable pub through_pipe : Bool → Option ℕ → Bytes → Logger → Option (Bool × Logger)
through_pipe false co out l = none
through_pipe true co out l =
    some (true, record l { requests = l.requests ++ co ∷ []; events = l.events ++ pipes out ∷ [] })

unfoldable pub write_in : File → Option ℕ → Bytes → Logger → Option (Bool × Logger)
write_in to_stderr co out l = some (false, record l { events = l.events ++ prints_err out ∷ [] })
write_in to_stdout co out l = some (false, record l { events = l.events ++ prints_out out ∷ [] })
write_in _ co out l = through_pipe l.pipe co out l

unfoldable pub write : Option ℕ → Bytes → Logger → Option (Bool × Logger)
write co out l = write_in l.file co out l

unfoldable pub resumed : Option ℕ → List Event
resumed none = []
resumed (some co) = resumes co ∷ []

-- `write_cb` of the first request.
unfoldable pub written : List (Option ℕ) → Logger → Logger
written [] l = l
written (co ∷ rest) l = record l { requests = rest; events = l.events ++ resumed co }

unfoldable pub write_cb : Logger → Logger
write_cb l = written l.requests l

-- `panic`, with the text of the exception or of the last error, if there is one.
unfoldable pub panic_in : File → Option Bytes → Logger → Logger
panic_in (opened fd) (some text) l = record l {
  file = unopened;
  events = l.events ++ appends fd text ∷ [];
}
panic_in _ _ l = l

unfoldable pub panic : Option Bytes → Logger → Logger
panic text l = panic_in l.file text l

-- A parameter of the calls: an array, as JSON, or its text.
pub data Param : Type 0 where
  as_json : Bytes → Param
  as_text : Bytes → Param

unfoldable pub param_text : Param → Bytes
param_text (as_json s) = s
param_text (as_text s) = s

unfoldable pub params_text : List Param → Bytes
params_text [] = []
params_text (p ∷ params) = 32 ∷ param_text p ++ params_text params

-- `make_buffer`, for the time in 19 bytes and a level such as ` (FAIL)`.
unfoldable pub make_buffer : Bytes → Bytes → List Param → Bytes
make_buffer time level params = 91 ∷ time ++ (93 ∷ level ++ (params_text params ++ 10 ∷ []))

-- The runs of a logger that is opened, and which opens every file that it is told to open later.
pub data Reach : Logger → Type 0 where
  opens :
      {l : Logger} (path : Bytes) (fd : ℕ) → (rotate_to path (descriptor fd) logger).1 ≡ l → Reach l
  redirects :
      {l : Logger} (path : Bytes) (fd : ℕ) → Reach l → Reach (rotate_to path (descriptor fd) l).1
  rotates : {l : Logger} (fd : ℕ) → Reach l → Reach (rotate (descriptor fd) l).1
  writes :
      {l m : Logger} (co : Option ℕ) (out : Bytes) {b : Bool}
      → Reach l
      → write co out l ≡ some (b, m)
      → Reach m
  answers : {l : Logger} → Reach l → Reach (write_cb l)
  panics : {l : Logger} (text : Option Bytes) → Reach l → Reach (panic text l)
