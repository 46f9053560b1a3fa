-- ===== src/Asm/Sources.antt =====
-- Whole source texts through the line loop of asm/00/asm.c.
use workbench.Common.{append-nil}
use workbench.Common.{append_assoc}
use workbench.Common.{
  sym, passed, ap, ℕ, zero, suc, ◌+◌, ◌==◌, ◌≡◌, ◌<◌, ◌≤◌, ◌∙◌, refl, Bool, true, false, ◌&&◌, not,
  Option, none, some, if◌then◌else◌, List, [], ◌∷◌, ◌++◌, length, ltb, arith, length-append,
}
use workbench.Asm.Scan.{newline, at_end, Written, items, skip_whitespace, process_data}
use workbench.Asm.Lines.{
  fgets, line_room, run_line, is_data, Ending, prepend, after_line, line_loop, assemble,
}
use workbench.Asm.Total.{fgets-lt}
use workbench.Asm.Listing.{
  Row, print_items, print_row, row_output, no_newline, is_row, are_rows, listing, listing_bytes,
}
use workbench.Asm.Printed.{print_items-append, print_items-no_newline, print_items-le}
use workbench.Asm.RoundTrip.{items-print_items}

-- The fuel does not matter once it covers the text.
line_loop-fuel :
    (f g n : ℕ) (input : List ℕ)
    → length input ≤ f
    → length input ≤ g
    → line_loop f n input ≡ line_loop g n input
unfolding line_loop
line_loop-fuel f g n [] h k = refl
line_loop-fuel zero g n (c ∷ input) h k = absurd (omega arith)
line_loop-fuel (suc f) zero n (c ∷ input) h k = absurd (omega arith)
line_loop-fuel (suc f) (suc g) n (c ∷ input) h k =
    let t = fgets line_room (c ∷ input) in
    ap (after_line (suc n) (run_line t.0)) (
      line_loop-fuel f g (suc n) t.1 (omega (arith, fgets-lt 1022 c input))
        (omega (arith, fgets-lt 1022 c input)))

-- A line that fits comes out whole.
fgets-line :
    (line rest : List ℕ) (room : ℕ)
    → no_newline line ≡ true
    → length line < room
    → fgets room (line ++ (newline ∷ rest)) ≡ (line ++ (newline ∷ []), rest)
unfolding fgets
fgets-line line rest zero h k = absurd (omega arith)
fgets-line [] rest (suc room) h k = refl
fgets-line (c ∷ line) rest (suc room) h k =
    passed (c == newline) (c ∷ [], line ++ (newline ∷ rest)) _ (ground (arith, h))
    ∙ ap (λ (t : List ℕ × List ℕ). (c ∷ t.0, t.1))
        (fgets-line line rest room (ground (arith, h)) (omega arith))

line_loop-step :
    (fuel n : ℕ) (input : List ℕ)
    → 0 < length input
    → line_loop (suc fuel) n input
      ≡ after_line
          (suc n)
          (run_line (fgets line_room input).0)
          (line_loop fuel (suc n) (fgets line_room input).1)
unfolding line_loop
line_loop-step fuel n [] h = absurd (omega arith)
line_loop-step fuel n (c ∷ input) h = refl

-- A line that fits, in front of a text.
line_loop-line :
    (line rest : List ℕ) (n fuel g : ℕ)
    → no_newline line ≡ true
    → length line < line_room
    → length (line ++ (newline ∷ rest)) ≤ fuel
    → length rest ≤ g
    → line_loop fuel n (line ++ (newline ∷ rest))
      ≡ after_line (suc n) (run_line (line ++ (newline ∷ []))) (line_loop g (suc n) rest)
line_loop-line line rest n zero g h k l m =
    absurd (omega (arith, length-append line (newline ∷ rest)))
line_loop-line line rest n (suc fuel) g h k l m =
    line_loop-step fuel n (line ++ (newline ∷ rest))
      (omega (arith, length-append line (newline ∷ rest)))
    ∙ ap (λ (t : List ℕ × List ℕ). after_line (suc n) (run_line t.0) (line_loop fuel (suc n) t.1))
        (fgets-line line rest line_room h k)
    ∙ ap (after_line (suc n) (run_line (line ++ (newline ∷ []))))
        (line_loop-fuel fuel g (suc n) rest (omega (arith, length-append line (newline ∷ rest))) m)

row-no_newline : (r : Row) → is_row r ≡ true → no_newline (print_row r) ≡ true
row-no_newline (Row.directive is) h = print_items-no_newline is
row-no_newline (Row.comment cs) h = ground (arith, h)
row-no_newline Row.blank_row h = refl

row-fits : (r : Row) → is_row r ≡ true → length (print_row r) < line_room
row-fits (Row.directive []) h = omega arith
row-fits (Row.directive (i ∷ is)) h = ground (arith, h)
row-fits (Row.comment cs) h = ground (arith, h)
row-fits Row.blank_row h = omega arith

run_line-row :
    (r : Row)
    → is_row r ≡ true
    → run_line (print_row r ++ (newline ∷ [])) ≡ some (true, row_output r)
unfolding run_line skip_whitespace is_data process_data
run_line-row (Row.directive []) h = absurd (ground (arith, h))
run_line-row (Row.directive (i ∷ is)) h =
    ap (λ (p : List ℕ). items (suc (suc (suc (suc (suc (length p)))))) p)
      (print_items-append (i ∷ is) (newline ∷ []))
    ∙ items-print_items (i ∷ is)
        (suc (suc (suc (suc (suc (length (print_items (i ∷ is) (newline ∷ []))))))))
        (ground (arith, h)) (omega (arith, print_items-le (i ∷ is) (newline ∷ [])))
run_line-row (Row.comment cs) h = refl
run_line-row Row.blank_row h = refl

prepend-nil : (o : Option (Ending × List ℕ)) → prepend [] o ≡ o
unfolding prepend
prepend-nil none = refl
prepend-nil (some (e, out)) = refl

prepend-append :
    (xs ys : List ℕ) (o : Option (Ending × List ℕ))
    → prepend xs (prepend ys o) ≡ prepend (xs ++ ys) o
unfolding prepend
prepend-append xs ys none = refl
prepend-append xs ys (some (e, out)) =
    ap (λ (t : List ℕ). some (e, t)) (sym (append_assoc xs ys out))

listing-le : (rs : List Row) (rest : List ℕ) → length rest ≤ length (listing rs rest)
listing-le [] rest = omega arith
listing-le (r ∷ rs) rest =
    omega (arith, listing-le rs rest, length-append (print_row r) (newline ∷ listing rs rest))

-- A source text in front of more text writes its bytes and counts its lines.
line_loop-listing :
    (rs : List Row) (rest : List ℕ) (n fuel : ℕ)
    → are_rows rs ≡ true
    → length (listing rs rest) ≤ fuel
    → line_loop fuel n (listing rs rest)
      ≡ prepend (listing_bytes rs) (line_loop (length rest) (length rs + n) rest)
unfolding after_line prepend
line_loop-listing [] rest n fuel h k =
    line_loop-fuel fuel (length rest) n rest k (omega arith)
    ∙ sym (prepend-nil (line_loop (length rest) n rest))
    ∙ ap (λ (t : ℕ). prepend [] (line_loop (length rest) t rest)) {y = 0 + n} (omega arith)
line_loop-listing (r ∷ rs) rest n fuel h k =
    let more = listing rs rest in
    line_loop-line (print_row r) more n fuel (length more) (row-no_newline r (ground (arith, h)))
      (row-fits r (ground (arith, h))) k (omega arith)
    ∙ ap (λ (o : Option Written). after_line (suc n) o (line_loop (length more) (suc n) more))
        (run_line-row r (ground (arith, h)))
    ∙ ap (prepend (row_output r))
        (line_loop-listing rs rest (suc n) (length more) (ground (arith, h)) (omega arith))
    ∙ prepend-append (row_output r) (listing_bytes rs)
        (line_loop (length rest) (length rs + suc n) rest)
    ∙ ap (λ (t : ℕ). prepend (row_output r ++ listing_bytes rs) (line_loop (length rest) t rest))
        {y = suc (length rs) + n} (omega arith)

-- A source of DATA lines with bytes, words above $FF and strings, of comments and of empty lines,
-- each within 1022 characters, is assembled to the bytes that its items stand for, in order and
-- with the low byte of a word first.
pub assemble-listing :
    (rs : List Row)
    → are_rows rs ≡ true
    → assemble (listing rs []) ≡ some (Ending.finished, listing_bytes rs)
unfolding assemble line_loop prepend
assemble-listing rs h =
    line_loop-listing rs [] 0 (length (listing rs [])) h (omega arith)
    ∙ ap (λ (t : List ℕ). some (Ending.finished, t)) (append-nil (listing_bytes rs))

-- A line that is neither DATA nor a comment.
abbrev pub is_unknown : List ℕ → Bool
is_unknown line =
    let p = skip_whitespace (line ++ (newline ∷ [])) in
    (no_newline line && ltb (length line) line_room) && (not (at_end p) && not (is_data p))

run_line-unknown :
    (line : List ℕ) → is_unknown line ≡ true → run_line (line ++ (newline ∷ [])) ≡ some (false, [])
unfolding run_line
run_line-unknown line u =
    let p = skip_whitespace (line ++ (newline ∷ [])) in
    passed (at_end p) (some (true, [])) (if is_data p then process_data p else some (false, []))
      (ground (arith, u))
    ∙ passed (is_data p) (process_data p) (some (false, [])) (ground (arith, u))

-- Behind such a source, the first line that is neither DATA nor a comment nor empty ends the
-- assembler with the number of that line, whatever comes after it, and with the bytes until then.
pub assemble-unknown :
    (rs : List Row) (line rest : List ℕ)
    → are_rows rs ≡ true
    → is_unknown line ≡ true
    → assemble (listing rs (line ++ (newline ∷ rest)))
      ≡ some (Ending.failed_at (length rs + 1), listing_bytes rs)
unfolding assemble after_line prepend
assemble-unknown rs line rest h u =
    let bad = line ++ (newline ∷ rest) in
    line_loop-listing rs bad 0 (length (listing rs bad)) h (omega arith)
    ∙ ap (prepend (listing_bytes rs)) (
        line_loop-line line rest (length rs + 0) (length bad) (length rest) (ground (arith, u))
          (ground (arith, u)) (omega arith) (omega arith)
        ∙ ap
            (λ (o : Option Written).
              after_line (suc (length rs + 0)) o
                (line_loop (length rest) (suc (length rs + 0)) rest))
            (run_line-unknown line u))
    ∙ ap (λ (t : List ℕ). some (Ending.failed_at (suc (length rs + 0)), t))
        (append-nil (listing_bytes rs))
    ∙ ap (λ (t : ℕ). some (Ending.failed_at t, listing_bytes rs)) {y = length rs + 1} (omega arith)
