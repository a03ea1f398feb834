-- ===== src/Program/Tests.antt =====
-- The program on a file of three lines, the last of which is left out.
use Prim.Native.String.{String}
use cpu_schedular.Base.{
  ◌≡◌, refl, ℤ, pos, negsuc, Bool, true, List, [], ◌∷◌, Option, some, ok, Returns, arith,
}
use cpu_schedular.File.{read_burstfile}
use cpu_schedular.Main.Tests.{
  short_line, long_line, two_lines, still_clock, eight_passes, eight_passes-IsFair, four_rounds,
}
use cpu_schedular.Program.{srtf, init_scheduler, main, unknown_scheduler}
use cpu_schedular.Program.Correct.{used, Finishes, main-Finishes}
use cpu_schedular.Program.Error.{unknown_name, main-Refused}
use cpu_schedular.File.Lines.{Fits}

-- The tokens are numbers already.
abbrev value : ℤ → ℤ
value n = n

abbrev file_lines : List (List ℤ)
file_lines =
    (pos 0 ∷ pos 5 ∷ negsuc 0 ∷ [])
    ∷ (pos 1 ∷ pos 3 ∷ pos 2 ∷ pos 60 ∷ negsuc 0 ∷ [])
    ∷ (negsuc 0 ∷ [])
    ∷ []

abbrev one_file : String → Option (List (List ℤ) × Bool)
one_file name = some (file_lines, true)

two_lines-read : read_burstfile value file_lines true ≡ ok two_lines
unfolding read_burstfile cpu_schedular.File.process_burst_line_s
    cpu_schedular.File.process_burst_line cpu_schedular.File.bursts cpu_schedular.File.fill
two_lines-read = refl

used-Fits : Fits value (used value file_lines true)
used-Fits = (omega arith, (omega arith, tt))

srtf_known : init_scheduler "srtf" ≡ some srtf
unfolding init_scheduler
srtf_known = refl

main-Finishes_example :
    Returns
      (Finishes value one_file still_clock 4 eight_passes srtf
        (used value file_lines true)
        two_lines)
      (main value one_file still_clock 4 eight_passes ("main" ∷ "srtf" ∷ "input" ∷ []))
main-Finishes_example =
    main-Finishes value one_file still_clock 4 eight_passes "main" "srtf" "input" file_lines true
      srtf short_line (long_line ∷ []) srtf_known refl two_lines-read used-Fits
      (omega arith, (omega arith, tt)) four_rounds eight_passes-IsFair (omega arith)

-- A name that the usage text gives.
main-Refused_example :
    main value one_file still_clock 4 eight_passes ("main" ∷ "priority" ∷ "input" ∷ [])
    ≡ ok unknown_scheduler
main-Refused_example =
    main-Refused value one_file still_clock 4 eight_passes ("main" ∷ "priority" ∷ "input" ∷ [])
      unknown_scheduler
      (unknown_name "main" "priority" "input" file_lines true two_lines refl two_lines-read
        (λ e. absurd cc) (λ e. absurd cc) (λ e. absurd cc) (λ e. absurd cc))
