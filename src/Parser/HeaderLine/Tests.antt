-- ===== src/Parser/HeaderLine/Tests.antt =====
-- Header lines on which `parse_header_line` runs.
use niubix.Base.{ℕ, List, [], ◌∷◌, some, ◌≡◌, refl}
use niubix.Parser.{Ret, new_parser}
use niubix.Parser.HeaderLine.{parse_header_line}
use niubix.Parser.HeaderLine.Print.{parse_header-print, print}

-- `A: b c` with a space at its end, from the second character of the buffer.
abbrev header : List ℕ
header = 0 ∷ print (65 ∷ []) 1 (98 ∷ 32 ∷ 99 ∷ []) 1 (13 ∷ [])

parse_header-print_example : parse_header_line header (new_parser 1) ≡ (
  Ret.parse_ok,
  record (new_parser 1) {
    start = 10;
    header_name_start = some 1;
    header_name_end = some 2;
    header_start = some 1;
    value_start = some 4;
    value_end = some 7;
  },
)
parse_header-print_example =
    parse_header-print header (65 ∷ []) 1 (98 ∷ 32 ∷ 99 ∷ []) 1 (13 ∷ []) (new_parser 1)
      (refl, refl, refl, tt) (refl, refl, refl, (refl, (refl, tt))) refl
