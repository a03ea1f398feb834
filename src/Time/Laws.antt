-- ===== src/Time/Laws.antt =====
-- What differences and sums of time stamps come to.
use cpu_schedular.Base.{
  pos, ◌≡◌, ◌≤ℤ◌, true, false, tests, inl, inr, ◌<ℤ◌, arith, int_laws, ◌+ℤ◌, ◌-ℤ◌, ltb_ℤ,
  Bool-cases, leb_ℤ,
}
use cpu_schedular.Time.{Timespec, Timer, nsec_per_sec, diff_timespec, timespec_add}

-- The nanoseconds of a time stamp are a proper fraction of a second.
abbrev pub IsNormal : Timespec → Type 0
IsNormal t = (pos 0 ≤ℤ t.tv_nsec) × (t.tv_nsec <ℤ nsec_per_sec)

-- The sum of two normal time stamps is normal.
pub timespec_add-IsNormal : (a b : Timespec) → IsNormal a → IsNormal b → IsNormal (timespec_add a b)
unfolding timespec_add ◌+ℤ◌ ◌-ℤ◌
timespec_add-IsNormal a b h k = ground arith

-- The time from one normal time stamp to another is normal, also if the end lies before the start.
pub diff_timespec-IsNormal :
    (t : Timer) → IsNormal t.start → IsNormal t.end → IsNormal (diff_timespec t)
unfolding diff_timespec ◌+ℤ◌ ◌-ℤ◌
diff_timespec-IsNormal t h k = ground arith

-- Time stamps with equal parts are equal.
Timespec-path : {a b : Timespec} → a.tv_sec ≡ b.tv_sec → a.tv_nsec ≡ b.tv_nsec → a ≡ b
Timespec-path p q = λ i. record { tv_sec = p i; tv_nsec = q i }

-- For a timer whose start and end are normal, adding the elapsed time to the start gives the end.
pub timespec_add-diff_timespec :
    (t : Timer) → IsNormal t.start → IsNormal t.end → timespec_add t.start (diff_timespec t) ≡ t.end
unfolding timespec_add diff_timespec
timespec_add-diff_timespec t h k =
    let s = t.start.tv_nsec in
    let e = t.end.tv_nsec in
    elim (Bool-cases (ltb_ℤ (e -ℤ s) (pos 0))) [
      | inl borrow ↦
          let carry : leb_ℤ nsec_per_sec (s +ℤ (e -ℤ s +ℤ nsec_per_sec)) ≡ true =
            omega (tests, int_laws) in
          rw (borrow, carry) (Timespec-path (omega int_laws) (omega int_laws))
      | inr plain ↦
          let no_carry : leb_ℤ nsec_per_sec (s +ℤ (e -ℤ s)) ≡ false = omega (tests, int_laws) in
          rw (plain, no_carry) (Timespec-path (omega int_laws) (omega int_laws))
    ]
