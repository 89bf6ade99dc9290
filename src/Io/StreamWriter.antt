-- ===== src/Io/StreamWriter.antt =====
-- src/flame/io/stream_writer.cpp: the writer of a stream. libuv answers the writes of a stream in
-- their order, those that are canceled included. A coroutine is a number.
pub mod Answers
use Prim.Native.String.{String}
use php_flame.Prelude.{
  ℕ, zero, suc, ◌≡◌, Bool, true, false, List, [], ◌∷◌, ◌++◌, if◌then◌else◌, Bytes, Outcome, returns,
  throws,
}

-- `is_open` is `cli_ != nullptr`; `requests` are the coroutines of the writes that libuv has not
-- answered, `written` the data that uv_write took, and `lost` the coroutines that wait although
-- uv_write has failed.
pub record Writer : Type 0 where
  pub is_open : Bool
  pub requests : List ℕ
  pub written : List Bytes
  pub lost : List ℕ

pub data Event : Type 0 where
  next : ℕ → Event
  fail : ℕ → ℕ → Event

unfoldable pub stream_writer : Writer
stream_writer = record { is_open = true; requests = []; written = []; lost = [] }

-- Behind uv_write, by its error, which is not read.
unfoldable pub given : ℕ → ℕ → Bytes → Writer → Writer
given zero current str w = record w {
  requests = w.requests ++ current ∷ [];
  written = w.written ++ str ∷ [];
}
given (suc e) current str w = record w { lost = w.lost ++ current ∷ [] }

unfoldable pub write : ℕ → ℕ → Bytes → Writer → Outcome Writer
write err current str w =
    if w.is_open
    then returns (given err current str w)
    else throws "failed to write: stream is already closed"

unfoldable pub close : Writer → Writer
close w = record w { is_open = false }

-- `error n` is a `status` of -n other than UV_ECANCELED.
pub data Status : Type 0 where
  done canceled : Status
  error : ℕ → Status

-- `write_cb` for the request of the coroutine `co`.
unfoldable pub write_cb : Status → ℕ → Writer → Writer × Event
write_cb done co w = (w, next co)
write_cb canceled co w = (close w, next co)
write_cb (error n) co w = (close w, fail co n)

-- The coroutine that an event resumes.
abbrev pub resumes : Event → ℕ
resumes (next co) = co
resumes (fail co n) = co

-- The coroutines that wait in a write, by the error of uv_write: those that libuv will answer.
unfoldable pub taken_by : ℕ → ℕ → List ℕ
taken_by zero co = co ∷ []
taken_by (suc e) co = []

-- All runs of a writer, with the coroutines whose writes libuv has taken, and those that it has
-- resumed, in order.
pub data Reach : List ℕ → List ℕ → Writer → Type 0 where
  start : Reach [] [] stream_writer
  writes :
      {taken resumed : List ℕ} {w v : Writer}
      → Reach taken resumed w
      → (err co : ℕ) (str : Bytes) → write err co str w ≡ returns v
      → Reach (taken ++ taken_by err co) resumed v
  answers :
      {taken resumed : List ℕ} {w : Writer} {co : ℕ} {rest : List ℕ}
      → Reach taken resumed w
      → w.requests ≡ co ∷ rest
      → (status : Status)
      → Reach taken
          (resumed ++ resumes (write_cb status co (record w { requests = rest })).1 ∷ [])
          (write_cb status co (record w { requests = rest })).0
  closes :
      {taken resumed : List ℕ} {w : Writer} → Reach taken resumed w → Reach taken resumed (close w)
