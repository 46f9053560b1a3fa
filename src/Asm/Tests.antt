-- ===== src/Asm/Tests.antt =====
-- The theorems on the assembler at a source text.
use workbench.Common.{ℕ, ◌+◌, ◌≡◌, refl, true, some, List, [], ◌∷◌, ◌++◌, length}
use workbench.Asm.Scan.{newline, quote, skip_whitespace}
use workbench.Asm.Lines.{is_data, Ending, assemble}
use workbench.Asm.Total.{is_some, assemble-is_some}
use workbench.Asm.Listing.{Item, Row, listing, listing_bytes}
use workbench.Asm.Sources.{assemble-listing, assemble-unknown}

-- A comment, an empty line, and a byte, a word and a string with a quote and a newline.
abbrev source : List Row
source =
    Row.comment (0x41 ∷ [])
    ∷ Row.blank_row
    ∷ Row.directive
        (Item.byte 0xa9 ∷ Item.word 0xfffc ∷ Item.text (0x48 ∷ quote ∷ newline ∷ []) ∷ [])
    ∷ []

-- "ORG"
abbrev origin : List ℕ
origin = 0x4f ∷ 0x52 ∷ 0x47 ∷ []

assemble-is_some_example : is_some (assemble (listing source origin)) ≡ true
assemble-is_some_example = assemble-is_some (listing source origin)

assemble-listing_example :
    assemble (listing source []) ≡ some (Ending.finished, listing_bytes source)
assemble-listing_example = assemble-listing source refl

assemble-unknown_example :
    assemble (listing source (origin ++ (newline ∷ [])))
    ≡ some (Ending.failed_at (length source + 1), listing_bytes source)
unfolding skip_whitespace is_data
assemble-unknown_example = assemble-unknown source origin [] refl refl
