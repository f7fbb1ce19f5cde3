-- ===== src/Parser/Chunked/Size.antt =====
-- src/http_parser.cpp, `parse_chunked` on the line that starts a chunk.
use niubix.Base.{
  ℕ, suc, ◌+◌, ◌*◌, ◌/◌, ◌%◌, ◌^◌, ◌≤◌, ◌<◌, List, [], ◌∷◌, ◌++◌, none, some, ◌≡◌, refl, ap, ◌∙◌,
  drop, length, add_suc, ge→ltb, lt→ltb, ltb, ◌==◌, false, ne→==_false, length-drop, true,
}
use niubix.Parser.{Ret, Parser}
use niubix.Parser.Chunked.{
  Chunk, ChunkState, ChunkedRet, Result, at_pos, hex, chunk_loop, chunk_next, chunk_go, chunk_step,
  start_digit, next_digit, size_end, finish, first_state, parse_chunked, max_off_t_value, result_of,
}
use native.Mathlib.Omega.{arith}
use native.Mathlib.Numerals.{unary_clauses}

-- The number that digits write behind those of `n`.
abbrev pub value : ℕ → List ℕ → ℕ
value n [] = n
value n (d ∷ ds) = value (n * 16 + d) ds

-- Characters that are the given digits.
abbrev pub IsHex : List ℕ → List ℕ → Type 0
IsHex [] [] = Unit {0}
IsHex (c ∷ cs) (d ∷ ds) = (hex c ≡ some d) × IsHex cs ds
IsHex _ _ = ⊥

value_ge : (ds : List ℕ) (n : ℕ) → n ≤ value n ds
value_ge [] n = omega arith
value_ge (d ∷ ds) n = omega (arith, value_ge ds (n * 16 + d))

abbrev chunk_in : ChunkState → ChunkedRet → Chunk
chunk_in st r = record { state = st; extension_start = none; trailer_headers_start = none; ret = r }

no_wrap : (n : ℕ) → n ≤ 9223372036854775807 → n % 2 ^ 64 ≡ n
no_wrap n h = omega arith

value_first : (d : ℕ) (ds : List ℕ) → value 0 (d ∷ ds) ≡ value d ds
value_first d ds = ap (λ n. value n ds) (omega arith)

digits_lem :
    (cs ds rest : List ℕ) (i : ℕ) (r : ChunkedRet)
    → IsHex cs ds
    → value r.size ds ≤ max_off_t_value / 16
    → chunk_loop (cs ++ rest) i (chunk_in ChunkState.st_chunk_size r)
      ≡ chunk_loop rest
          (i + length cs)
          (chunk_in ChunkState.st_chunk_size (record r { size = value r.size ds }))
unfolding chunk_loop chunk_next chunk_go chunk_step next_digit
digits_lem [] [] rest i r h b = simp unary_clauses refl
digits_lem [] (d ∷ ds) rest i r h b = absurd h
digits_lem (c ∷ cs) [] rest i r h b = absurd h
digits_lem (c ∷ cs) (d ∷ ds) rest i r (e, h) b =
    let m = value_ge ds (r.size * 16 + d) in
    rw
      (
        ge→ltb 576460752303423487 r.size (omega (arith, m, b)),
        e,
        no_wrap (r.size * 16 + d) (omega (arith, m, b)),
        add_suc i (length cs),
      )
      (digits_lem cs ds rest (suc i) (record r { size = r.size * 16 + d }) h b)

line_end_lem :
    (rest : List ℕ) (i : ℕ) (r : ChunkedRet)
    → 0 < r.size
    → r.size ≤ max_off_t_value / 16
    → chunk_loop (13 ∷ 10 ∷ rest) i (chunk_in ChunkState.st_chunk_size r)
      ≡ at_pos (suc i) (chunk_in ChunkState.st_chunk_data r)
unfolding chunk_loop chunk_next chunk_go chunk_step next_digit size_end hex
line_end_lem rest i r a b =
    rw (ge→ltb 576460752303423487 r.size b, ne→==_false r.size 0 (λ e. omega (arith, e, a))) refl

-- The line that starts a chunk: digits and the line's end, in front of what follows it.
abbrev pub print : List ℕ → List ℕ → List ℕ
print cs rest = cs ++ 13 ∷ 10 ∷ rest

chunk_line_lem :
    (cs ds rest : List ℕ) (i : ℕ) (r : ChunkedRet)
    → IsHex cs ds
    → 0 < length cs
    → 0 < value 0 ds
    → value 0 ds ≤ max_off_t_value / 16
    → chunk_loop (print cs rest) i (chunk_in ChunkState.st_chunk_start r)
      ≡ at_pos
          (suc (i + length cs))
          (chunk_in ChunkState.st_chunk_data (record r { size = value 0 ds }))
unfolding chunk_loop chunk_next chunk_go chunk_step start_digit
chunk_line_lem [] ds rest i r h l a b = absurd (omega arith)
chunk_line_lem (c ∷ cs) [] rest i r h l a b = absurd h
chunk_line_lem (c ∷ cs) (d ∷ ds) rest i r (e, h) l a b =
    let first = value_first d ds in
    rw (e, first, add_suc i (length cs))
      (digits_lem cs ds (13 ∷ 10 ∷ rest) (suc i) (record r { size = d }) h (rw first at b)
        ∙ line_end_lem rest (suc i + length cs) (record r { size = value d ds }) (rw first at a)
            (rw first at b))

length-print : (cs rest : List ℕ) → length (print cs rest) ≡ length cs + 2 + length rest
length-print [] rest = omega arith
length-print (c ∷ cs) rest = omega (arith, length-print cs rest)

-- The line that starts a chunk, of hexadecimal digits in either case, whose number is neither 0 nor
-- above a sixteenth of the largest offset, is parsed whatever follows it: the size is that number,
-- the parser stops behind the line, and `data_start` stays as it was.
pub parse_chunked-print :
    (buf cs ds rest : List ℕ) (p : Parser) (r : ChunkedRet)
    → IsHex cs ds
    → 0 < length cs
    → 0 < value 0 ds
    → value 0 ds ≤ max_off_t_value / 16
    → p.start < length buf
    → first_state r ≡ ChunkState.st_chunk_start
    → drop p.start buf ≡ print cs rest
    → parse_chunked buf p r ≡ (
      Ret.http_err_200,
      record p { start = p.start + length cs + 2 },
      record r { result = Result.get_chunk_data; size = value 0 ds },
    )
unfolding parse_chunked finish result_of
parse_chunked-print buf cs ds rest p r h l a b inside f e =
    let i = p.start in
    let all : i + (length cs + 2 + length rest) ≡ length buf =
      omega (arith, length-drop i buf, ap length e, length-print cs rest, inside) in
    let moved : ltb i (suc (i + length cs)) ≡ true = lt→ltb _ _ (omega arith) in
    let not_end : (suc (i + length cs) == length buf) ≡ false =
      ne→==_false _ _ (λ q. omega (arith, q, all)) in
    rw (f, e, chunk_line_lem cs ds rest i r h l a b, moved, not_end) (simp unary_clauses refl)
