-- ===== src/Sched/Bounds.antt =====
-- `_should_terminate` guards the reads of the arrays of bursts.
use cpu_schedular.Base.{suc, ◌<◌, ◌≤◌, ◌≡◌, true, false, length, arith}
use cpu_schedular.Process.{Process}
use cpu_schedular.Sched.{should_terminate}
use cpu_schedular.Sched.Lifecycle.{IsWellFormed}

module _ (p : Process) (w : IsWellFormed p.process_d) where
  -- A ready process that goes on has a CPU burst at its index.
  pub cpu_index-lt :
      p.io_index ≡ p.cpu_index
      → should_terminate p ≡ false
      → p.cpu_index < length p.process_d.cpu_burst
  unfolding should_terminate
  cpu_index-lt i h = ground (arith, w.cpu_size)

  -- A sleeping process that goes on has an I/O burst at its index.
  pub io_index-lt :
      p.cpu_index ≡ suc p.io_index
      → should_terminate p ≡ false
      → p.io_index < length p.process_d.io_burst
  unfolding should_terminate
  io_index-lt i h = ground (arith, w.io_size)

  pub ready-over :
      p.io_index ≡ p.cpu_index
      → should_terminate p ≡ true
      → (p.process_d.cpu_burst_size ≤ p.cpu_index) × (p.process_d.io_burst_size ≤ p.io_index)
  unfolding should_terminate
  ready-over i h = ground arith

  pub asleep-over :
      p.cpu_index ≡ suc p.io_index
      → should_terminate p ≡ true
      → (p.process_d.cpu_burst_size ≤ p.cpu_index) × (p.process_d.io_burst_size ≤ p.io_index)
  unfolding should_terminate
  asleep-over i h = ground arith
