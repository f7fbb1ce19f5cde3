-- ===== src/Parser/Chunked.antt =====
-- src/http_parser.h, `http_parser::chunked_ret`, and src/http_parser.cpp,
-- `http_parser::parse_chunked`.
pub mod Size
pub mod Bounds
pub mod Resume
mod Tests
use niubix.Base.{
  ℕ, zero, suc, ◌+◌, ◌-◌, ◌*◌, ◌/◌, ◌%◌, ◌^◌, Bool, true, false, not, ◌&&◌, List, [], ◌∷◌, Option,
  none, some, ltb, leb, ◌==◌, if◌then◌else◌, drop, length,
}
use niubix.Parser.{Ret, Parser, index, cr, lf}

-- `no_result` stands for the 0 of a new `chunked_ret`.
pub data Result : Type 0 where
  no_result partial_chunk get_chunk_data all_chunk_end : Result

pub record ChunkedRet : Type 0 where
  pub result : Result
  pub size : ℕ
  pub data_start : Option ℕ

abbrev pub new_chunked_ret : ChunkedRet
new_chunked_ret = record { result = Result.no_result; size = 0; data_start = none }

pub data ChunkState : Type 0 where
  st_chunk_start st_chunk_size st_chunk_extension st_chunk_extension_almost_done : ChunkState
  st_chunk_data st_after_data st_after_data_almost_done : ChunkState
  st_last_chunk_extension st_last_chunk_extension_almost_done : ChunkState
  st_trailer st_trailer_almost_done st_trailer_header st_trailer_header_almost_done : ChunkState
  st_all_chunks_end : ChunkState

-- The function's variables, and the result that it writes to.
pub record Chunk : Type 0 where
  pub state : ChunkState
  pub extension_start : Option ℕ
  pub trailer_headers_start : Option ℕ
  pub ret : ChunkedRet

-- One round of the loop: on with the next character, or a `return`, of which nothing more is read.
pub data Step : Type 0 where
  go : Chunk → Step
  fail : Ret → ChunkedRet → Step

-- `LOWER` sets the bit of 32.
abbrev pub lower : ℕ → ℕ
lower c = if c / 32 % 2 == 0 then c + 32 else c

-- The value of a hexadecimal digit.
pub hex : ℕ → Option ℕ
hex ch =
    if leb 48 ch && leb ch 57
    then some (ch - 48)
    else if leb 97 (lower ch) && leb (lower ch) 102
    then some (lower ch - 97 + 10)
    else none

abbrev pub goto : ChunkState → Chunk → Step
goto st k = go (record k { state = st })

abbrev pub expect : ℕ → ChunkState → ℕ → Chunk → Step
expect wanted st ch k = if ch == wanted then goto st k else fail Ret.http_err_400 k.ret

abbrev pub max_len : ℕ
max_len = 255

abbrev pub max_off_t_value : ℕ
max_off_t_value = 9223372036854775807

-- Takes the length of an extension from its first character, and gives up on one that is too long.
pub extension_step : ChunkState → ℕ → ℕ → Chunk → Step
extension_step done i ch k = extension (k.extension_start)
  where
    on : Chunk → Step
    on k' = if ch == cr then goto done k' else go k'

    extension : Option ℕ → Step
    extension none = on (record k { extension_start = some i })
    extension (some e) = if ltb max_len (i - e) then fail Ret.http_err_400 k.ret else on k

-- The end of the digits of a size.
pub size_end : ℕ → Chunk → Step
size_end ch k =
    if k.ret.size == 0
    then if ch == cr
      then goto ChunkState.st_last_chunk_extension_almost_done k
      else if ch == 59
      then goto ChunkState.st_last_chunk_extension k
      else fail Ret.http_err_400 k.ret
    else if ch == cr
    then goto ChunkState.st_chunk_extension_almost_done k
    else if ch == 59
    then goto ChunkState.st_chunk_extension k
    else fail Ret.http_err_400 k.ret

-- A character of a size, by its value as a digit.
pub start_digit : Option ℕ → Chunk → Step
start_digit none k = fail Ret.http_err_400 k.ret
start_digit (some d) k =
    go (record k { state = ChunkState.st_chunk_size; ret = record k.ret { size = d } })

pub next_digit : Option ℕ → ℕ → Chunk → Step
next_digit none ch k = size_end ch k
next_digit (some d) ch k =
    go (record k { ret = record k.ret { size = (k.ret.size * 16 + d) % 2 ^ 64 } })

pub trailer_step : Option ℕ → ℕ → Chunk → Step
trailer_step none i k =
    go (record k { state = ChunkState.st_trailer_header; trailer_headers_start = some i })
trailer_step (some t) i k =
    if ltb max_len (i - t) then fail Ret.http_err_400 k.ret else goto ChunkState.st_trailer_header k

-- The `switch`, for the character `ch` at `i`.
pub chunk_step : ChunkState → ℕ → ℕ → Chunk → Step
chunk_step ChunkState.st_chunk_start i ch k = start_digit (hex ch) k
chunk_step ChunkState.st_chunk_size i ch k =
    if ltb (max_off_t_value / 16) k.ret.size
    then fail Ret.http_err_413 k.ret
    else next_digit (hex ch) ch k
chunk_step ChunkState.st_chunk_extension i ch k =
    extension_step ChunkState.st_chunk_extension_almost_done i ch k
chunk_step ChunkState.st_chunk_extension_almost_done i ch k =
    expect lf ChunkState.st_chunk_data ch k
chunk_step ChunkState.st_last_chunk_extension i ch k =
    extension_step ChunkState.st_last_chunk_extension_almost_done i ch k
chunk_step ChunkState.st_last_chunk_extension_almost_done i ch k =
    expect lf ChunkState.st_trailer ch k
chunk_step ChunkState.st_chunk_data i ch k =
    go (record k { ret = record k.ret { data_start = some i } })
chunk_step ChunkState.st_after_data i ch k = expect cr ChunkState.st_after_data_almost_done ch k
chunk_step ChunkState.st_after_data_almost_done i ch k = expect lf ChunkState.st_chunk_start ch k
chunk_step ChunkState.st_trailer i ch k =
    if ch == cr
    then goto ChunkState.st_trailer_almost_done k
    else trailer_step k.trailer_headers_start i k
chunk_step ChunkState.st_trailer_almost_done i ch k = expect lf ChunkState.st_all_chunks_end ch k
chunk_step ChunkState.st_trailer_header i ch k =
    if ch == cr then goto ChunkState.st_trailer_header_almost_done k else go k
chunk_step ChunkState.st_trailer_header_almost_done i ch k = expect lf ChunkState.st_trailer ch k
chunk_step ChunkState.st_all_chunks_end i ch k = go k

-- How the loop ends: the place, the variables, and an error if it returned one.
pub data Ended : Type 0 where
  at_pos : ℕ → Chunk → Ended
  returned : Ret → ChunkedRet → Ended

-- The end of a round at `i`: out of the loop, or on to the rounds `rest`.
pub chunk_go : (Chunk → Ended) → ℕ → ChunkState → Chunk → Ended
chunk_go rest i ChunkState.st_chunk_data k = at_pos i k
chunk_go rest i ChunkState.st_all_chunks_end k = at_pos i k
chunk_go rest i _ k = rest k

pub chunk_next : (Chunk → Ended) → ℕ → Step → Ended
chunk_next rest i (fail err ret) = returned err ret
chunk_next rest i (go k) = chunk_go rest i k.state k

-- The `for`, with the characters from `i` to `end`.
pub chunk_loop : List ℕ → ℕ → Chunk → Ended
chunk_loop [] i k = at_pos i k
chunk_loop (ch ∷ chars) i k = chunk_next (chunk_loop chars (suc i)) i (chunk_step k.state i ch k)

pub result_of : ChunkState → Result
result_of ChunkState.st_all_chunks_end = Result.all_chunk_end
result_of ChunkState.st_chunk_data = Result.get_chunk_data
result_of _ = Result.partial_chunk

-- The code behind the loop, in a buffer of `end` characters.
pub finish : ℕ → Parser → Ended → Ret × Parser × ChunkedRet
finish end p (returned err ret) = (err, p, ret)
finish end p (at_pos i k) =
    let moved = ltb p.start i && not (i == end) in
    (
      Ret.http_err_200,
      if moved then record p { start = i + 1 } else p,
      record k.ret { result = result_of k.state },
    )

-- The state that the first `if` picks.
pub first_state : ChunkedRet → ChunkState
first_state ret = first ret.result
  where
    first : Result → ChunkState
    first Result.get_chunk_data =
        if ret.size == 0 then ChunkState.st_after_data else ChunkState.st_chunk_start
    first _ = ChunkState.st_chunk_start

pub parse_chunked : List ℕ → Parser → ChunkedRet → Ret × Parser × ChunkedRet
parse_chunked buf p ret = finish (length buf) p (
    chunk_loop (drop p.start buf) p.start (record {
      state = first_state ret;
      extension_start = none;
      trailer_headers_start = none;
      ret = ret;
    }))
