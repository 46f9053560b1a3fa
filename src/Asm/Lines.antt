-- ===== src/Asm/Lines.antt =====
-- The line loop of main in asm/00/asm.c. The text of the input file is an argument, and the output
-- file is what was written.
use workbench.Common.{
  ℕ, zero, suc, ◌==◌, Bool, true, false, ◌&&◌, ◌||◌, Option, none, some, if◌then◌else◌, List, [],
  ◌∷◌, ◌++◌, length,
}
use workbench.Asm.Scan.{
  newline, tab, space, peek, skip, skip_whitespace, at_end, Written, process_data,
}

-- `fgets` with room for so many characters: a line, or as much of it as fits, and what is left.
unfoldable pub fgets : ℕ → List ℕ → List ℕ × List ℕ
fgets zero input = ([], input)
fgets (suc room) [] = ([], [])
fgets (suc room) (c ∷ input) =
    let (line, rest) = fgets room input in
    if c == newline then (c ∷ [], input) else (c ∷ line, rest)

-- The characters that `char line[1024]` holds before its terminator.
abbrev pub line_room : ℕ
line_room = 1023

-- `strncmp(p, "DATA", 4) == 0` and a space or a tab.
unfoldable pub is_data : List ℕ → Bool
is_data p =
    ((peek p == 0x44) && (peek (skip 1 p) == 0x41))
    && (((peek (skip 2 p) == 0x54) && (peek (skip 3 p) == 0x41))
        && ((peek (skip 4 p) == space) || (peek (skip 4 p) == tab)))

unfoldable pub run_line : List ℕ → Option Written
run_line line =
    let p = skip_whitespace line in
    if at_end p then some (true, []) else if is_data p then process_data p else some (false, [])

-- How main ends: 0, or 1 with the number of the line in the message.
pub data Ending : Type 0 where
  finished : Ending
  failed_at : ℕ → Ending

unfoldable pub prepend : List ℕ → Option (Ending × List ℕ) → Option (Ending × List ℕ)
prepend bytes none = none
prepend bytes (some (ending, out)) = some (ending, bytes ++ out)

unfoldable pub after_line : ℕ → Option Written → Option (Ending × List ℕ) → Option (Ending × List ℕ)
after_line line_num none go = none
after_line line_num (some (false, out)) go = some (Ending.failed_at line_num, out)
after_line line_num (some (true, out)) go = prepend out go

-- The loop, on fuel, from a line number on.
unfoldable pub line_loop : ℕ → ℕ → List ℕ → Option (Ending × List ℕ)
line_loop fuel line_num [] = some (Ending.finished, [])
line_loop zero line_num (c ∷ input) = none
line_loop (suc fuel) line_num (c ∷ input) =
    let (line, rest) = fgets line_room (c ∷ input) in
    after_line (suc line_num) (run_line line) (line_loop fuel (suc line_num) rest)

-- Each line takes at least one character.
unfoldable pub assemble : List ℕ → Option (Ending × List ℕ)
assemble input = line_loop (length input) 0 input
