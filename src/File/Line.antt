-- ===== src/File/Line.antt =====
-- The bursts of a line alternate, and are the numbers of the line in their order.
use cpu_schedular.Base.{
  ℕ, suc, ◌+◌, ◌%◌, ◌≤◌, ◌<◌, ◌≡◌, refl, sym, ◌∙◌, ℤ, true, false, if◌then◌else◌, List, [], ◌∷◌,
  ◌++◌, length, length-append, ltb, ◌==◌, Bool-cases, inl, inr, arith, tests, ok, Returns, ==_iff,
  ◌*◌, append_assoc, append-nil,
}
use cpu_schedular.File.{is_end, capacity, fill, bursts, process_burst_line}
use cpu_schedular.Process.{BurstLine}
use cpu_schedular.Sched.Lifecycle.{IsWellFormed}

-- The bursts of the two kinds in turn, the CPU first.
abbrev pub interleave : List ℤ → List ℤ → List ℤ
interleave [] io = io
interleave (x ∷ cpu) [] = x ∷ cpu
interleave (x ∷ cpu) (y ∷ io) = x ∷ y ∷ interleave cpu io

interleave-cpu :
    (cpu io : List ℤ) (x : ℤ)
    → length cpu ≡ length io
    → interleave (cpu ++ x ∷ []) io ≡ interleave cpu io ++ x ∷ []
interleave-cpu [] [] x e = refl
interleave-cpu [] (b ∷ io) x e = absurd (omega arith)
interleave-cpu (a ∷ cpu) [] x e = absurd (omega arith)
interleave-cpu (a ∷ cpu) (b ∷ io) x e = rw (interleave-cpu cpu io x (omega arith))

interleave-io :
    (cpu io : List ℤ) (x : ℤ)
    → length cpu ≡ suc (length io)
    → interleave cpu (io ++ x ∷ []) ≡ interleave cpu io ++ x ∷ []
interleave-io [] io x e = absurd (omega arith)
interleave-io (a ∷ []) [] x e = refl
interleave-io (a ∷ b ∷ cpu) [] x e = absurd (omega arith)
interleave-io (a ∷ cpu) (b ∷ io) x e = rw (interleave-io cpu io x (omega arith))

-- The first `i` numbers of a line have gone to the two buffers in turn.
pub record Alternate (i : ℕ) (cpu io : List ℤ) : Type 0 where
  pub count : length cpu + length io ≡ i
  pub io_le_cpu : length io ≤ length cpu
  pub cpu_le_io : length cpu ≤ suc (length io)

fill-ok :
    (buffer : List ℤ) (x : ℤ) → length buffer < capacity → fill buffer x ≡ ok (buffer ++ x ∷ [])
unfolding fill
fill-ok buffer x lt = let room : ltb (length buffer) capacity ≡ true = omega tests in rw room

module _ {Token : Type 0} (atoi : Token → ℤ) where
  -- The numbers of a line before its end.
  abbrev pub before_end : List Token → List ℤ
  before_end [] = []
  before_end (token ∷ tokens) =
      let rest = before_end tokens in if is_end (atoi token) then [] else atoi token ∷ rest

  bursts-end :
      (i : ℕ) (token : Token) (tokens : List Token) (cpu io : List ℤ)
      → is_end (atoi token) ≡ true
      → bursts atoi i (token ∷ tokens) cpu io ≡ ok (cpu, io)
  unfolding bursts
  bursts-end i token tokens cpu io e = rw (e, bursts)

  bursts-cpu :
      (i : ℕ) (token : Token) (tokens : List Token) (cpu io : List ℤ)
      → is_end (atoi token) ≡ false
      → (i % 2 == 0) ≡ true
      → length cpu < capacity
      → bursts atoi i (token ∷ tokens) cpu io
        ≡ bursts atoi (suc i) tokens (cpu ++ atoi token ∷ []) io
  unfolding bursts
  bursts-cpu i token tokens cpu io e even lt = rw (e, even, fill-ok cpu (atoi token) lt, bursts)

  bursts-io :
      (i : ℕ) (token : Token) (tokens : List Token) (cpu io : List ℤ)
      → is_end (atoi token) ≡ false
      → (i % 2 == 0) ≡ false
      → length io < capacity
      → bursts atoi i (token ∷ tokens) cpu io
        ≡ bursts atoi (suc i) tokens cpu (io ++ atoi token ∷ [])
  unfolding bursts
  bursts-io i token tokens cpu io e odd lt = rw (e, odd, fill-ok io (atoi token) lt, bursts)

  -- What the loop over the tokens leaves in the buffers.
  abbrev Splits : List Token → List ℤ → List ℤ → List ℤ × List ℤ → Type 0
  Splits tokens cpu io (cpu', io') =
      (j : ℕ) × Alternate j cpu' io'
      × (interleave cpu' io' ≡ interleave cpu io ++ before_end tokens)

  bursts-Splits :
      (i : ℕ) (tokens : List Token) (cpu io : List ℤ)
      → i + length tokens ≤ 2 * capacity
      → Alternate i cpu io
      → Returns (Splits tokens cpu io) (bursts atoi i tokens cpu io)
  unfolding bursts
  bursts-Splits i [] cpu io le a = (_, refl, (i, a, sym (append-nil (interleave cpu io))))
  bursts-Splits i (token ∷ tokens) cpu io le a = elim (Bool-cases (is_end (atoi token))) [
    | inl e ↦
        (_, bursts-end i token tokens cpu io e, (i, a, rw e (sym (append-nil (interleave cpu io)))))
    | inr e ↦ elim (Bool-cases (i % 2 == 0)) [
      | inl even ↦
          let z : i % 2 ≡ 0 = (==_iff _ _).0 even in
          let same : length cpu ≡ length io = omega (arith, a.count, a.io_le_cpu, a.cpu_le_io) in
          let (r, is, (j, b, whole)) =
            bursts-Splits (suc i) tokens (cpu ++ atoi token ∷ []) io (omega arith) (record {
              count = omega (arith, length-append cpu (atoi token ∷ []), a.count);
              io_le_cpu = omega (arith, length-append cpu (atoi token ∷ []), a.io_le_cpu);
              cpu_le_io = omega (arith, length-append cpu (atoi token ∷ []));
            }) in
          (
            r,
            bursts-cpu i token tokens cpu io e even (omega (arith, a.count)) ∙ is,
            (
              j,
              b,
              whole
                  ∙ (rw (e, interleave-cpu cpu io (atoi token) same)
                      (append_assoc (interleave cpu io) (atoi token ∷ []) (before_end tokens))),
            ),
          )
      | inr odd ↦
          let z : i % 2 ≡ 1 = ground arith in
          let same : length cpu ≡ suc (length io) =
            omega (arith, a.count, a.io_le_cpu, a.cpu_le_io) in
          let (r, is, (j, b, whole)) =
            bursts-Splits (suc i) tokens cpu (io ++ atoi token ∷ []) (omega arith) (record {
              count = omega (arith, length-append io (atoi token ∷ []), a.count);
              io_le_cpu = omega (arith, length-append io (atoi token ∷ []));
              cpu_le_io = omega (arith, length-append io (atoi token ∷ []), a.cpu_le_io);
            }) in
          (
            r,
            bursts-io i token tokens cpu io e odd (omega (arith, a.count)) ∙ is,
            (
              j,
              b,
              whole
                  ∙ (rw (e, interleave-io cpu io (atoi token) same)
                      (append_assoc (interleave cpu io) (atoi token ∷ []) (before_end tokens))),
            ),
          )
    ]
  ]

  -- What a line says: its arrival time, and its bursts in turn.
  pub record Parsed (token : Token) (tokens : List Token) (d : BurstLine) : Type 0 where
    pub well_formed : IsWellFormed d
    pub a_time : d.a_time ≡ atoi token
    pub numbers : interleave d.cpu_burst d.io_burst ≡ before_end tokens

  -- A line of at most 2048 tokens behind the first is read without a fault. The record has the
  -- first number for its arrival time, its sizes are those of its arrays, its bursts alternate, and
  -- taken in turn they are the numbers of the line before its end.
  pub process_burst_line-Parsed :
      (token : Token) (tokens : List Token) (line : BurstLine)
      → length tokens ≤ 2 * capacity
      → Returns (Parsed token tokens) (process_burst_line atoi (token ∷ tokens) line)
  unfolding process_burst_line
  process_burst_line-Parsed token tokens line le =
      let ((cpu, io), is, (j, a, whole)) =
        bursts-Splits 0 tokens [] [] (omega arith)
          (record { count = refl; io_le_cpu = omega arith; cpu_le_io = omega arith }) in
      (
        _,
        rw is,
        record {
          well_formed = record {
            cpu_size = refl;
            io_size = refl;
            io_le_cpu = a.io_le_cpu;
            cpu_le_io = a.cpu_le_io;
          };
          a_time = refl;
          numbers = whole;
        },
      )
