-- ===== src/Tests/BitmapExamples.antt =====
-- The bitmap at concrete inputs.
use titan_lob.Prelude.{suc, ◌*◌, ◌==◌, arith, pos, if◌then◌else◌}
use titan_lob.Bitmap.{Words, bitmap_words, find_highest, find_lowest}
use titan_lob.Bitmap.Levels.{IsWords}
use titan_lob.Bitmap.Find.{Highest, Lowest, find_highest_lem, find_lowest_lem}

-- Levels 3 and 70 are marked.
abbrev marks : Words
marks w = if w == 0 then 8 else if w == 1 then 64 else 0

marks-IsWords : IsWords marks
marks-IsWords w = ground arith

find_highest_example : Highest marks (suc 5 * 64) (find_highest marks (pos 5))
find_highest_example = find_highest_lem marks 5 marks-IsWords

find_lowest_example :
    Lowest marks (0 * 64) (bitmap_words * 64) (find_lowest marks bitmap_words (pos 0))
find_lowest_example = find_lowest_lem marks bitmap_words 0 marks-IsWords (omega arith)
