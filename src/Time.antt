-- ===== src/Time.antt =====
-- src/time_t.h and src/time_t.c: time stamps of the wall clock, their difference and their sum.
pub mod Laws
use cpu_schedular.Base.{ℤ, pos, ◌+ℤ◌, ◌-ℤ◌, ltb_ℤ, leb_ℤ, if◌then◌else◌}

pub record Timespec : Type 0 where
  pub tv_sec : ℤ
  pub tv_nsec : ℤ

pub record Timer : Type 0 where
  pub start : Timespec
  pub end : Timespec

abbrev pub nsec_per_sec : ℤ
nsec_per_sec = pos 1000000000

unfoldable pub diff_timespec : Timer → Timespec
diff_timespec timer =
    let sec = timer.end.tv_sec -ℤ timer.start.tv_sec in
    let nsec = timer.end.tv_nsec -ℤ timer.start.tv_nsec in
    if ltb_ℤ nsec (pos 0)
    then record { tv_sec = sec -ℤ pos 1; tv_nsec = nsec +ℤ nsec_per_sec }
    else record { tv_sec = sec; tv_nsec = nsec }

unfoldable pub timespec_add : Timespec → Timespec → Timespec
timespec_add t1 t2 =
    let sec = t1.tv_sec +ℤ t2.tv_sec in
    let nsec = t1.tv_nsec +ℤ t2.tv_nsec in
    if leb_ℤ nsec_per_sec nsec
    then record { tv_sec = sec +ℤ pos 1; tv_nsec = nsec -ℤ nsec_per_sec }
    else record { tv_sec = sec; tv_nsec = nsec }
