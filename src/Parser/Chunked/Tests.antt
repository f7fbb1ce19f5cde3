-- ===== src/Parser/Chunked/Tests.antt =====
-- Chunks on which `parse_chunked` runs.
use niubix.Base.{ℕ, List, [], ◌∷◌, ◌≡◌, refl}
use niubix.Parser.{Ret, new_parser}
use niubix.Parser.Chunked.{new_chunked_ret, Result, parse_chunked, hex, first_state}
use niubix.Parser.Chunked.Size.{parse_chunked-print, print}
use native.Mathlib.Omega.{arith}

-- `1F`, and the end of the line.
abbrev chunk_line : List ℕ
chunk_line = print (49 ∷ 70 ∷ []) (120 ∷ [])

parse_chunked-print_example : parse_chunked chunk_line (new_parser 0) new_chunked_ret ≡ (
  Ret.http_err_200,
  record (new_parser 0) { start = 4 },
  record new_chunked_ret { result = Result.get_chunk_data; size = 31 },
)
unfolding hex first_state
parse_chunked-print_example =
    parse_chunked-print chunk_line (49 ∷ 70 ∷ []) (1 ∷ 15 ∷ []) (120 ∷ []) (new_parser 0)
      new_chunked_ret (refl, (refl, tt)) (omega arith) (omega arith) (omega arith) (omega arith)
      refl refl
