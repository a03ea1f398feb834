-- ===== src/Program/Error.antt =====
-- The arguments with which the program ends early.
use Prim.Native.String.{String}
use text.Mathlib.Text.{◌==◌ as ◌equals◌}
use text.Mathlib.TextEquality.{eq_iff}
use cpu_schedular.Base.{
  ℕ, ◌≡◌, ◌≢◌, refl, ◌∙◌, ℤ, Bool, false, List, [], ◌∷◌, Option, none, some, length, Run, ok,
  Bool-cases, inl, inr,
}
use cpu_schedular.File.{read_burstfile}
use cpu_schedular.Process.{BurstLine}
use cpu_schedular.Program.{
  init_scheduler, Ended, usage, no_input, unknown_scheduler, start_scheduler, main,
}
use cpu_schedular.Simulation.{Turn}
use cpu_schedular.Time.{Timespec}
use cpu_schedular.Program.Correct.{main-three}

differs : (name other : String) → name ≢ other → (name equals other) ≡ false
differs name other ne = elim (Bool-cases (name equals other)) [
  | inl same ↦ absurd (ne ((eq_iff name other).0 same))
  | inr other_name ↦ other_name
]

init_scheduler-none :
    (name : String)
    → name ≢ "fcfs"
    → name ≢ "sjf"
    → name ≢ "srtf"
    → name ≢ "rr"
    → init_scheduler name ≡ none
unfolding init_scheduler
init_scheduler-none name a b c d =
    rw (differs name "fcfs" a, differs name "sjf" b, differs name "srtf" c, differs name "rr" d)

module _ {Token : Type 0} (atoi : Token → ℤ) (contents : String → Option (List (List Token) × Bool))
    (clock : ℕ → Timespec) (fuel : ℕ) (passes : List (List Turn)) where
  abbrev run_main : List String → Run Ended
  run_main = main atoi contents clock fuel passes

  start_scheduler-unknown :
      (name : String) (lines : List (List Token)) (newline : Bool) (ds : List BurstLine)
      → read_burstfile atoi lines newline ≡ ok ds
      → init_scheduler name ≡ none
      → start_scheduler atoi contents clock fuel passes name lines newline ≡ ok unknown_scheduler
  unfolding start_scheduler
  start_scheduler-unknown name lines newline ds e unknown = rw (e, unknown)

  main-usage : (args : List String) → length args ≢ 3 → run_main args ≡ ok usage
  unfolding main
  main-usage [] ne = refl
  main-usage (a ∷ []) ne = refl
  main-usage (a ∷ b ∷ []) ne = refl
  main-usage (a ∷ b ∷ c ∷ []) ne = absurd (ne refl)
  main-usage (a ∷ b ∷ c ∷ d ∷ rest) ne = refl

  main-no_input :
      (prog_name name file : String)
      → contents file ≡ none
      → run_main (prog_name ∷ name ∷ file ∷ []) ≡ ok no_input
  unfolding main
  main-no_input prog_name name file e = rw (e, main)

  -- The arguments with which the program ends before it starts a thread, and how it ends.
  pub data Refused : List String → Ended → Type 0 where
    wrong_count : (args : List String) → length args ≢ 3 → Refused args usage
    unreadable :
        (prog_name name file : String)
        → contents file ≡ none
        → Refused (prog_name ∷ name ∷ file ∷ []) no_input
    unknown_name :
        (prog_name name file : String) (lines : List (List Token)) (newline : Bool)
        (ds : List BurstLine)
        → contents file ≡ some (lines, newline)
        → read_burstfile atoi lines newline ≡ ok ds
        → name ≢ "fcfs"
        → name ≢ "sjf"
        → name ≢ "srtf"
        → name ≢ "rr"
        → Refused (prog_name ∷ name ∷ file ∷ []) unknown_scheduler

  -- The program ends with the usage text if it has not two arguments behind its name, with an error
  -- if the file cannot be opened, and, for a file that can be read, with another error if the name of
  -- the scheduler is not `fcfs`, `sjf`, `srtf` or `rr`.
  pub main-Refused :
      (args : List String) (e : Ended)
      → Refused args e
      → main atoi contents clock fuel passes args ≡ ok e
  main-Refused _ _ (wrong_count args ne) = main-usage args ne
  main-Refused _ _ (unreadable prog_name name file e) = main-no_input prog_name name file e
  main-Refused _ _ (unknown_name prog_name name file lines newline ds opened e a b c d) =
      main-three atoi contents clock fuel passes prog_name name file lines newline opened
      ∙ start_scheduler-unknown name lines newline ds e (init_scheduler-none name a b c d)
