-- ===== src/BufFile/Worker.antt =====
-- `log_writer` of src/buf_file_impl.rs: the thread behind the channel. What the channel delivers is
-- a list of events; a run that has used up its events is still waiting for the next.
pub mod Delivery
pub mod Run
pub mod Drain
use captains_log.Base.{
  ℕ, zero, suc, List, [], ◌∷◌, ◌++◌, Bool, true, false, Outcome, returned, ◌>>=◌,
}
use captains_log.System.{Os}
use captains_log.Rotation.Limits.{Archive}
use captains_log.BufFile.{
  Msg, line, reopen_file, flush_request, Writer, reopen, check_rotate, flush, write,
}

-- The first message of a wait with those that `try_recv` finds after it, or the end of the wait.
pub data Recv : Type 0 where
  received : Msg → List Msg → Recv
  timeout : Recv
  disconnected : Recv

module _ {W : Type 0} (os : Os W) (archive : Archive W) where
  -- The caller of a flush is woken.
  abbrev pub answer_flush : ℕ → Writer W → Writer W
  answer_flush id s = record s {
    answers = s.answers ++ record { request = id; found = s.world; pending = s.buf } ∷ [];
  }

  -- A flush request is answered after the flush.
  unfoldable pub process : Msg → Writer W → Outcome (Writer W)
  process (line bytes) s = write os archive bytes s
  process reopen_file s = reopen os archive s
  process (flush_request id) s = do s' ← flush os archive true s; returned (answer_flush id s')

  unfoldable pub process_all : List Msg → Writer W → Outcome (Writer W)
  process_all [] s = returned s
  process_all (m ∷ ms) s = do s' ← process m s; process_all ms s'

  -- The loop on `recv_timeout`. The result says whether the thread has ended.
  unfoldable pub timed_loop : List Recv → Writer W → Outcome (Bool × Writer W)
  timed_loop [] s = returned (false, s)
  timed_loop (received m ms ∷ events) s = do s' ← process_all (m ∷ ms) s; timed_loop events s'
  timed_loop (timeout ∷ events) s = do s' ← flush os archive false s; timed_loop events s'
  timed_loop (disconnected ∷ events) s = do s' ← flush os archive true s; returned (true, s')

  -- The loop on `recv`, which has no timeout.
  unfoldable pub eager_loop : List Recv → Writer W → Outcome (Bool × Writer W)
  eager_loop [] s = returned (false, s)
  eager_loop (received m ms ∷ events) s = do
    s' ← process_all (m ∷ ms) s
    s'' ← flush os archive false s'
    eager_loop events s''
  eager_loop (timeout ∷ events) s = eager_loop events s
  eager_loop (disconnected ∷ events) s = do s' ← flush os archive true s; returned (true, s')

  abbrev pub loop_of : ℕ → List Recv → Writer W → Outcome (Bool × Writer W)
  loop_of zero = eager_loop
  loop_of (suc n) = timed_loop

  unfoldable pub log_writer : List Recv → Writer W → Outcome (Bool × Writer W)
  log_writer events s = do
    s1 ← reopen os archive s
    s2 ← check_rotate os archive s1
    loop_of s2.flush_millis events s2
