-- ===== src/Process.antt =====
-- src/process.h, src/process.c and the record `burst_line` of src/file.h. A process lives in the
-- store of `Threads` from its creation on, and the queues hold references to it.
use cpu_schedular.Base.{ℕ, ℤ, pos, List, []}
use cpu_schedular.Time.{Timespec}

pub data Status : Type 0 where
  new ready sleep running terminated undefined : Status

-- The arrays have exactly the sizes of the record, as `calloc` makes them.
pub record BurstLine : Type 0 where
  pub cpu_burst : List ℤ
  pub io_burst : List ℤ
  pub a_time : ℤ
  pub cpu_burst_size : ℕ
  pub io_burst_size : ℕ

pub record Process : Type 0 where
  pub pid : ℕ
  pub priority : ℤ
  pub remaining_time : ℤ
  pub process_d : BurstLine
  pub cpu_index : ℕ
  pub io_index : ℕ
  pub status : Status
  pub cpu_time : ℤ
  pub io_time : ℤ
  pub a_time : ℤ
  pub process_time : ℤ
  pub wall_time : Timespec
  pub turnaround_time : ℤ

-- What `calloc` leaves: zeros, and a process with no bursts until the caller sets them.
abbrev pub no_bursts : BurstLine
no_bursts = record {
  cpu_burst = [];
  io_burst = [];
  a_time = pos 0;
  cpu_burst_size = 0;
  io_burst_size = 0;
}

-- `create_process` with the counter `T_PROCESS` handed in; the caller keeps the next one.
unfoldable pub create_process : ℕ → Process
create_process t_process = record {
  pid = t_process;
  priority = pos 0;
  remaining_time = pos 0;
  process_d = no_bursts;
  cpu_index = 0;
  io_index = 0;
  status = new;
  cpu_time = pos 0;
  io_time = pos 0;
  a_time = pos 0;
  process_time = pos 0;
  wall_time = record { tv_sec = pos 0; tv_nsec = pos 0 };
  turnaround_time = pos 0;
}
