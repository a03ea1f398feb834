-- ===== src/File/Lines.antt =====
-- All lines of the input file.
use cpu_schedular.Base.{◌*◌, ◌≤◌, refl, ℤ, List, [], ◌∷◌, length, Returns}
use cpu_schedular.File.{capacity, process_burst_line_s}
use cpu_schedular.File.Line.{Parsed, process_burst_line-Parsed}
use cpu_schedular.Process.{BurstLine, no_bursts}
use cpu_schedular.Sched.Lifecycle.{AllWellFormed}

module _ {Token : Type 0} (atoi : Token → ℤ) where
  -- No line is blank, and each fits the buffers.
  abbrev pub Fits : List (List Token) → Type 0
  Fits [] = Unit {0}
  Fits ([] ∷ lines) = ⊥
  Fits ((token ∷ tokens) ∷ lines) = (length tokens ≤ 2 * capacity) × Fits lines

  abbrev pub AllParsed : List (List Token) → List BurstLine → Type 0
  AllParsed [] [] = Unit {0}
  AllParsed ((token ∷ tokens) ∷ lines) (d ∷ ds) = Parsed atoi token tokens d × AllParsed lines ds
  AllParsed _ _ = ⊥

  -- If no line is blank, and none has more than 2048 tokens behind the first, all lines are read
  -- without a fault, each as its tokens say, and the bursts of each alternate.
  pub process_burst_line_s-AllParsed :
      (lines : List (List Token))
      → Fits lines
      → Returns (λ ds. AllParsed lines ds × AllWellFormed ds) (process_burst_line_s atoi lines)
  unfolding process_burst_line_s
  process_burst_line_s-AllParsed [] fits = ([], refl, (tt, tt))
  process_burst_line_s-AllParsed ([] ∷ lines) fits = absurd fits
  process_burst_line_s-AllParsed ((token ∷ tokens) ∷ lines) (le, fits) =
      let (d, is, p) = process_burst_line-Parsed atoi token tokens no_bursts le in
      let (ds, are, (ps, ws)) = process_burst_line_s-AllParsed lines fits in
      (d ∷ ds, rw (is, are), ((p, ps), (p.well_formed, ws)))
