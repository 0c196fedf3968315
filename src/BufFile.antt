-- ===== src/BufFile.antt =====
-- src/buf_file_impl.rs: the writer behind a buffered log file. `Writer` is `BufFileInner` with the
-- world that it writes to and its answers to flush requests.
pub mod Worker
pub mod Steady
pub mod Bytes
pub mod Aging
pub mod Bounds
pub mod Lines
pub mod Tests
use captains_log.Base.{
  ℕ, suc, ◌+◌, ◌%◌, ◌^◌, List, [], ◌∷◌, ◌++◌, map, Option, none, some, Bool, true, false, not, ◌&&◌,
  ◌||◌, Outcome, returned, unwrap, ◌>>=◌, length, ltb, leb, ◌==◌, if◌then◌else◌,
}
use captains_log.System.{Os, Metadata, open_file, write_loop}
use captains_log.Rotation.Limits.{Archive, LogRotate, FileSink, rotate, wait}

-- A message on the channel; a flush request is known by a number.
pub data Msg : Type 0 where
  line : List ℕ → Msg
  reopen_file : Msg
  flush_request : ℕ → Msg

pub record BufFileInner : Type 0 where
  pub size : ℕ
  pub create_time : Option ℕ
  pub f : Option ℕ
  pub buf : List ℕ
  pub flush_millis : ℕ
  pub rotation : Option LogRotate
  pub flush_size : ℕ

-- An answer to a flush request: the request, and what the caller that it wakes finds, which is the
-- world and the bytes that are still in the buffer when the answer is given.
pub record Answer (W : Type 0) : Type 0 where
  pub request : ℕ
  pub found : W
  pub pending : List ℕ

pub record Writer (W : Type 0) : Type 0 where
  pub inner : BufFileInner
  pub open inner use *
  pub world : W
  pub answers : List (Answer W)

-- The requests that have been answered, in order.
abbrev pub answered : {W : Type 0} → Writer W → List ℕ
answered s = map (λ a. a.request) s.answers

abbrev pub flush_size_default : ℕ
flush_size_default = 4096

-- The part of `LogSinkBufFile::new` that makes the writer from the configuration.
unfoldable pub new_inner : ℕ → ℕ → Option LogRotate → BufFileInner
new_inner flush_millis flush_size rotation = record {
  size = 0;
  create_time = none;
  f = none;
  buf = [];
  flush_millis = if flush_millis == 0 || ltb 1000 flush_millis then 1000 else flush_millis;
  rotation = rotation;
  flush_size = if flush_size == 0 then flush_size_default else flush_size;
}

abbrev is_empty : List ℕ → Bool
is_empty [] = true
is_empty (x ∷ xs) = false

-- `get_create_time` and `get_size`
abbrev pub sink_of : BufFileInner → FileSink
sink_of inner = record { create_time = inner.create_time; size = inner.size }

-- The creation time is set once, from the modification time.
set_create_time : Option ℕ → Metadata → Outcome (Option ℕ)
set_create_time (some t) mt = returned (some t)
set_create_time none mt = do t ← unwrap mt.modified; returned (some t)

-- The next line does not fit beside what the buffer holds.
abbrev pub is_full : {W : Type 0} → Writer W → List ℕ → Bool
is_full s bytes = ltb s.flush_size (length s.buf + length bytes) && not (is_empty s.buf)

module _ {W : Type 0} (os : Os W) (archive : Archive W) where
  unfoldable pub reopen : Writer W → Outcome (Writer W)
  unfolding set_create_time
  reopen s =
      let (opened, w) = open_file os s.world in
      elim opened [
        | none ↦ returned (record s { world = w })
        | some fd ↦ do
          mt ← unwrap (os.metadata w)
          created ← set_create_time s.create_time mt
          returned (record s {
            inner = record s.inner { size = mt.len; create_time = created; f = some fd };
            world = w;
          })
      ]

  unfoldable pub check_rotate : Writer W → Outcome (Writer W)
  unfolding reopen
  check_rotate s = elim s.rotation [
    | none ↦ returned s
    | some ro ↦ do
      (rotated, ro', w) ← rotate archive ro (os.now s.world) (sink_of s.inner) s.world
      let s' = record s { inner = record s.inner { rotation = some ro' }; world = w }
      if rotated then reopen s' else returned s'
  ]

  -- The first half of `flush`: nothing happens while the file is not open.
  unfoldable pub flush_buf : Writer W → Outcome (Writer W)
  unfolding check_rotate
  flush_buf s = elim s.f [
    | none ↦ returned s
    | some fd ↦ do
      w ← write_loop os (suc (length s.buf)) fd s.buf s.world
      check_rotate (record s {
        inner = record s.inner { size = (s.size + length s.buf) % 2 ^ 64; buf = [] };
        world = w;
      })
  ]

  wait_rotation : Bool → Writer W → Writer W
  wait_rotation false s = s
  wait_rotation true s = elim s.rotation [
    | none ↦ s
    | some ro ↦
        let (ro', w) = wait archive ro s.world in
        record s { inner = record s.inner { rotation = some ro' }; world = w }
  ]

  unfoldable pub flush : Bool → Writer W → Outcome (Writer W)
  unfolding flush_buf wait_rotation
  flush wait_rotate s = do s' ← flush_buf s; returned (wait_rotation wait_rotate s')

  abbrev flush_if : Bool → Writer W → Outcome (Writer W)
  flush_if b s = if b then flush false s else returned s

  unfoldable pub write : List ℕ → Writer W → Outcome (Writer W)
  write bytes s = do
    s1 ← flush_if (is_full s bytes) s
    let s2 = record s1 { inner = record s1.inner { buf = s1.buf ++ bytes } }
    flush_if (leb s2.flush_size (length s2.buf)) s2
