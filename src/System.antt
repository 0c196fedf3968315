-- ===== src/System.antt =====
-- What the file sinks ask of the operating system: an append-only open, write(2), the metadata of
-- the log file and the clock. `W` is the state of the world outside the process. `open_file`
-- (src/file_impl.rs) and the write loop of `flush` (src/buf_file_impl.rs), which also stands in
-- `log` of src/file_impl.rs, are the program's own.
pub mod WriteLoop
use captains_log.Base.{
  ℕ, zero, suc, List, [], ◌∷◌, Option, Bool, true, Outcome, returned, out_of_fuel, length, drop,
  ◌==◌, if◌then◌else◌,
}

-- What libc::write returned: a count, or a negative number.
pub data WriteResult : Type 0 where
  wrote : ℕ → WriteResult
  failed : WriteResult

pub record OpenOptions : Type 0 where
  pub append : Bool
  pub create : Bool

pub record Metadata : Type 0 where
  pub len : ℕ
  pub modified : Option ℕ

pub record Os (W : Type 0) : Type 0 where
  pub write : ℕ → List ℕ → W → WriteResult × W
  -- A file descriptor, or none where the call returns an error.
  pub open_path : OpenOptions → W → Option ℕ × W
  pub metadata : W → Option Metadata
  pub now : W → ℕ

module _ {W : Type 0} (os : Os W) where
  unfoldable pub open_file : W → Option ℕ × W
  open_file w = os.open_path (record { append = true; create = true }) w

  -- The loop ends when everything that was left is written or the call fails.
  unfoldable pub write_loop : ℕ → ℕ → List ℕ → W → Outcome W
  write_loop zero fd bytes w = out_of_fuel
  write_loop (suc fuel) fd bytes w =
      let (r, w') = os.write fd bytes w in
      elim r [
        | failed ↦ returned w'
        | wrote n ↦
            let rest = write_loop fuel fd (drop n bytes) w' in
            if n == length bytes then returned w' else rest
      ]
