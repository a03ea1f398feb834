-- ===== src/File.antt =====
-- src/file.c, `_process_burst_line` and `_process_burst_line_s`: the bursts of the lines of the input
-- file. A line comes as the tokens that `strtok_r` finds in it, and `atoi` is a parameter.
pub mod Line
pub mod Lines
use cpu_schedular.Base.{
  ℕ, zero, suc, ◌+◌, ◌-◌, take, ◌%◌, ℤ, pos, negsuc, Bool, true, false, List, [], ◌∷◌, ◌++◌, length,
  ltb, ◌==◌, if◌then◌else◌, Run, ok, fault, ◌>>=◌,
}
use cpu_schedular.Process.{BurstLine, no_bursts}

-- `int_token == -1`, the end of a line.
abbrev pub is_end : ℤ → Bool
is_end (pos n) = false
is_end (negsuc zero) = true
is_end (negsuc (suc n)) = false

-- The buffers of a line, which `calloc` makes of 1024 numbers.
abbrev pub capacity : ℕ
capacity = 1024

-- `buffer[size++] = burst`: the part of a buffer that is filled has `size` numbers.
unfoldable pub fill : List ℤ → ℤ → Run (List ℤ)
fill buffer burst = if ltb (length buffer) capacity then ok (buffer ++ burst ∷ []) else fault

module _ {Token : Type 0} (atoi : Token → ℤ) where
  -- The loop over the tokens: bursts of the CPU and of I/O in turn, from the token number `i` on.
  unfoldable pub bursts : ℕ → List Token → List ℤ → List ℤ → Run (List ℤ × List ℤ)
  bursts i [] cpu io = ok (cpu, io)
  bursts i (token ∷ tokens) cpu io = elim (is_end (atoi token)) [
    | true ↦ ok (cpu, io)
    | false ↦ elim (i % 2 == 0) [
      | true ↦ do cpu' ← fill cpu (atoi token); bursts (suc i) tokens cpu' io
      | false ↦ do io' ← fill io (atoi token); bursts (suc i) tokens cpu io'
    ]
  ]

  -- A line without a token leaves the record as it was.
  unfoldable pub process_burst_line : List Token → BurstLine → Run BurstLine
  process_burst_line [] line = ok line
  process_burst_line (token ∷ tokens) line = do
    (cpu, io) ← bursts 0 tokens [] []
    ok (record {
      cpu_burst = cpu;
      io_burst = io;
      a_time = atoi token;
      cpu_burst_size = length cpu;
      io_burst_size = length io;
    })

  -- `_process_burst_line_s`: the lines in turn, each into a record that `calloc` has cleared.
  unfoldable pub process_burst_line_s : List (List Token) → Run (List BurstLine)
  process_burst_line_s [] = ok []
  process_burst_line_s (line ∷ lines) = do
    d ← process_burst_line line no_bursts
    ds ← process_burst_line_s lines
    ok (d ∷ ds)

  -- `read_burstfile`, of the lines behind the 20th byte of the file and of whether the last one ends
  -- with a newline: `fgets` is called for each line, and once more if the end of the file was not
  -- seen by then, into 1024 rows. Of what was read the last two are left out. If there is nothing
  -- left, the code writes outside of the memory that it has allocated for nothing.
  abbrev pub reads : List (List Token) → Bool → ℕ
  reads lines newline = length lines + (if newline then 1 else 0)

  unfoldable pub read_burstfile : List (List Token) → Bool → Run (List BurstLine)
  read_burstfile lines newline =
      if ltb capacity (reads lines newline)
      then fault
      else if ltb 2 (reads lines newline)
      then process_burst_line_s (take (reads lines newline - 2) lines)
      else fault
