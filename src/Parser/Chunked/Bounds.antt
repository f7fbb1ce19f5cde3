-- ===== src/Parser/Chunked/Bounds.antt =====
-- src/http_parser.cpp, `parse_chunked` on every input: the sizes that it records.
use niubix.Base.{
  ℕ, suc, ◌/◌, ◌≤◌, List, [], ◌∷◌, Option, none, some, ◌≡◌, refl, drop, length, ltb, ltb→ge, inl,
  inr, Bool-cases,
}
use niubix.Parser.{Parser}
use niubix.Parser.Chunked.{
  Chunk, ChunkState, ChunkedRet, Step, go, fail, Ended, at_pos, returned, hex, chunk_loop,
  chunk_next, chunk_go, chunk_step, start_digit, next_digit, size_end, extension_step, trailer_step,
  finish, parse_chunked, max_off_t_value,
}
use native.Mathlib.Omega.{arith}

-- A size that `off_t` holds.
abbrev pub IsBounded : ChunkedRet → Type 0
IsBounded r = r.size ≤ max_off_t_value

abbrev IsBoundedStep : Step → Type 0
IsBoundedStep (go k) = IsBounded k.ret
IsBoundedStep (fail err r) = IsBounded r

hex-le : (ch d : ℕ) → hex ch ≡ some d → d ≤ 15
unfolding hex
hex-le ch d e = ground arith

start_digit-IsBounded :
    (o : Option ℕ) (k : Chunk)
    → ((d : ℕ) → o ≡ some d → d ≤ 15)
    → IsBounded k.ret
    → IsBoundedStep (start_digit o k)
unfolding start_digit
start_digit-IsBounded none k b h = h
start_digit-IsBounded (some d) k b h = omega (arith, b d refl)

next_digit-IsBounded :
    (o : Option ℕ) (ch : ℕ) (k : Chunk)
    → ((d : ℕ) → o ≡ some d → d ≤ 15)
    → k.ret.size ≤ max_off_t_value / 16
    → IsBoundedStep (next_digit o ch k)
unfolding next_digit size_end
next_digit-IsBounded none ch k b h = ground arith
next_digit-IsBounded (some d) ch k b h = omega (arith, b d refl, h)

chunk_step-IsBounded :
    (st : ChunkState) (i ch : ℕ) (k : Chunk)
    → IsBounded k.ret
    → IsBoundedStep (chunk_step st i ch k)
unfolding chunk_step extension_step trailer_step start_digit next_digit size_end
chunk_step-IsBounded ChunkState.st_chunk_start i ch k h =
    start_digit-IsBounded (hex ch) k (hex-le ch) h
chunk_step-IsBounded ChunkState.st_chunk_size i ch k h =
    elim (Bool-cases (ltb 576460752303423487 k.ret.size)) [
      | inl e ↦ rw e h
      | inr e ↦ rw e (next_digit-IsBounded (hex ch) ch k (hex-le ch) (ltb→ge _ _ e))
    ]
chunk_step-IsBounded ChunkState.st_chunk_extension i ch k h = ground arith
chunk_step-IsBounded ChunkState.st_chunk_extension_almost_done i ch k h = ground arith
chunk_step-IsBounded ChunkState.st_last_chunk_extension i ch k h = ground arith
chunk_step-IsBounded ChunkState.st_last_chunk_extension_almost_done i ch k h = ground arith
chunk_step-IsBounded ChunkState.st_chunk_data i ch k h = h
chunk_step-IsBounded ChunkState.st_after_data i ch k h = ground arith
chunk_step-IsBounded ChunkState.st_after_data_almost_done i ch k h = ground arith
chunk_step-IsBounded ChunkState.st_trailer i ch k h = ground arith
chunk_step-IsBounded ChunkState.st_trailer_almost_done i ch k h = ground arith
chunk_step-IsBounded ChunkState.st_trailer_header i ch k h = ground arith
chunk_step-IsBounded ChunkState.st_trailer_header_almost_done i ch k h = ground arith
chunk_step-IsBounded ChunkState.st_all_chunks_end i ch k h = h

abbrev IsBoundedEnd : Ended → Type 0
IsBoundedEnd (at_pos i k) = IsBounded k.ret
IsBoundedEnd (returned err r) = IsBounded r

chunk_go-IsBounded :
    (rest : Chunk → Ended) (i : ℕ) (st : ChunkState) (k : Chunk)
    → IsBounded k.ret
    → IsBoundedEnd (rest k)
    → IsBoundedEnd (chunk_go rest i st k)
unfolding chunk_go
chunk_go-IsBounded rest i ChunkState.st_chunk_data k h r = h
chunk_go-IsBounded rest i ChunkState.st_all_chunks_end k h r = h
chunk_go-IsBounded rest i _ k h r = r

chunk_next-IsBounded :
    (rest : Chunk → Ended) (i : ℕ) (step : Step)
    → IsBoundedStep step
    → ((k : Chunk) → IsBounded k.ret → IsBoundedEnd (rest k))
    → IsBoundedEnd (chunk_next rest i step)
unfolding chunk_next
chunk_next-IsBounded rest i (go k) h r = chunk_go-IsBounded rest i k.state k h (r k h)
chunk_next-IsBounded rest i (fail err ret) h r = h

chunk_loop-IsBounded :
    (chars : List ℕ) (i : ℕ) (k : Chunk) → IsBounded k.ret → IsBoundedEnd (chunk_loop chars i k)
unfolding chunk_loop
chunk_loop-IsBounded [] i k h = h
chunk_loop-IsBounded (ch ∷ chars) i k h =
    chunk_next-IsBounded (chunk_loop chars (suc i)) i _ (chunk_step-IsBounded k.state i ch k h)
      (chunk_loop-IsBounded chars (suc i))

finish-IsBounded :
    (end : ℕ) (p : Parser) (e : Ended) → IsBoundedEnd e → IsBounded (finish end p e).2
unfolding finish
finish-IsBounded end p (at_pos i k) h = h
finish-IsBounded end p (returned err r) h = h

-- On every input, errors included, a size that `off_t` holds becomes one that it holds.
pub parse_chunked-IsBounded :
    (buf : List ℕ) (p : Parser) (r : ChunkedRet) → IsBounded r → IsBounded (parse_chunked buf p r).2
unfolding parse_chunked
parse_chunked-IsBounded buf p r h =
    finish-IsBounded (length buf) p _ (chunk_loop-IsBounded (drop p.start buf) p.start _ h)
