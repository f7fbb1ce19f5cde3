-- ===== src/Parser/Chunked/Resume.antt =====
-- src/http_parser.cpp, `parse_chunked` called again with more data.
use niubix.Base.{
  ℕ, suc, ◌<◌, List, [], ◌∷◌, ◌≡◌, refl, ap, drop, length, ltb, lt→ltb, ◌==◌, true, length-drop,
}
use niubix.Parser.{Ret, Parser}
use niubix.Parser.Chunked.{
  ChunkState, ChunkedRet, Result, hex, chunk_loop, chunk_next, chunk_go, chunk_step, start_digit,
  finish, first_state, parse_chunked, result_of,
}
use native.Mathlib.Omega.{arith}

==_refl : (n : ℕ) → (n == n) ≡ true
==_refl n = ground arith

first_state-after :
    (r : ChunkedRet)
    → r.result ≡ Result.get_chunk_data
    → r.size ≡ 0
    → first_state r ≡ ChunkState.st_after_data
unfolding first_state
first_state-after r g z = rw (g, z) refl

refused_lem :
    (buf more : List ℕ) (p : Parser) (r : ChunkedRet)
    → r.result ≡ Result.partial_chunk
    → drop p.start buf ≡ 13 ∷ more
    → parse_chunked buf p r ≡ (Ret.http_err_400, p, r)
unfolding parse_chunked finish chunk_loop chunk_next chunk_step first_state start_digit hex
refused_lem buf more p r g e = simp (g, e) refl

-- If the buffer ends with the line end behind a chunk's data, `parse_chunked` asks for more data
-- without moving on and forgets where it was: called again with whatever more data, it takes the
-- line end for the start of a chunk and refuses the request.
pub parse_chunked-resume :
    (buf buf' more : List ℕ) (p : Parser) (r : ChunkedRet)
    → r.result ≡ Result.get_chunk_data
    → r.size ≡ 0
    → p.start < length buf
    → drop p.start buf ≡ 13 ∷ 10 ∷ []
    → drop p.start buf' ≡ 13 ∷ 10 ∷ more
    → let r' = record r { result = Result.partial_chunk } in
      (parse_chunked buf p r ≡ (Ret.http_err_200, p, r'))
      × (parse_chunked buf' p r' ≡ (Ret.http_err_400, p, r'))
unfolding parse_chunked finish result_of chunk_loop chunk_next chunk_go chunk_step
parse_chunked-resume buf buf' more p r g z inside e e' =
    let all : suc (suc p.start) ≡ length buf =
      omega (arith, length-drop p.start buf, ap length e, inside) in
    let at_end : (suc (suc p.start) == length buf) ≡ true = rw (← all) (==_refl _) in
    let moved : ltb p.start (suc (suc p.start)) ≡ true = lt→ltb _ _ (omega arith) in
    let again : ChunkedRet = record r { result = Result.partial_chunk } in
    (
      simp (first_state-after r g z, e, at_end, moved) refl,
      refused_lem buf' (10 ∷ more) p again refl e',
    )
