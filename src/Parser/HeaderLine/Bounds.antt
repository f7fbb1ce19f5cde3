-- ===== src/Parser/HeaderLine/Bounds.antt =====
-- Where `parse_header_line` leaves the pointers, on every input.
use niubix.Base.{
  ℕ, suc, ◌+◌, ◌≤◌, ◌<◌, ◌≡◌, add_suc, List, [], ◌∷◌, drop, length, length-drop, subst,
}
use niubix.Parser.{Ret, Parser}
use niubix.Parser.HeaderLine.{
  HeaderState, Step, go, fail, header_step, header_go, header_next, header_loop, parse_header_line,
}
use niubix.Parser.RequestLine.Bounds.{IsRefusal}
use native.Mathlib.Omega.{arith}

abbrev Fine : Step → Type 0
Fine (go st p) = Unit {0}
Fine (fail err p) = IsRefusal err

header_step-Fine : (st : HeaderState) (i ch : ℕ) (p : Parser) → Fine (header_step st i ch p)
unfolding header_step
header_step-Fine HeaderState.st_start i ch p = ground arith
header_step-Fine HeaderState.st_name i ch p = ground arith
header_step-Fine HeaderState.st_space_before_value i ch p = ground arith
header_step-Fine HeaderState.st_value i ch p = ground arith
header_step-Fine HeaderState.st_space_after_value i ch p = ground arith
header_step-Fine HeaderState.st_almost_done i ch p = ground arith
header_step-Fine HeaderState.st_req_almost_done i ch p = ground arith
header_step-Fine HeaderState.st_req_end i ch p = ground arith
header_step-Fine HeaderState.st_end i ch p = ground arith

-- A line or the empty line at the end moves the parser on, inside the buffer, from `i`.
abbrev pub Moves : ℕ → ℕ → Ret × Parser → Type 0
Moves i n (Ret.parse_ok, p) = (i < p.start) × (p.start ≤ n)
Moves i n (Ret.end_of_req, p) = (i < p.start) × (p.start ≤ n)
Moves i n (Ret.partial_req, p) = p.start ≡ suc n
Moves i n (err, p) = IsRefusal err

refusal-Moves : (i n : ℕ) (err : Ret) (p : Parser) → IsRefusal err → Moves i n (err, p)
refusal-Moves i n Ret.partial_req p h = absurd h
refusal-Moves i n Ret.parse_ok p h = absurd h
refusal-Moves i n Ret.end_of_req p h = absurd h
refusal-Moves i n Ret.http_err_200 p h = h
refusal-Moves i n Ret.http_err_400 p h = h
refusal-Moves i n Ret.http_err_405 p h = h
refusal-Moves i n Ret.http_err_413 p h = h
refusal-Moves i n Ret.http_err_414 p h = h
refusal-Moves i n Ret.http_err_505 p h = h

header_go-Moves :
    (rest : HeaderState → Parser → Ret × Parser) (s i n : ℕ) (st : HeaderState) (p : Parser)
    → s ≤ i
    → suc i ≤ n
    → Moves s n (rest st p)
    → Moves s n (header_go rest i st p)
unfolding header_go
header_go-Moves rest s i n HeaderState.st_end p le lt h = (omega arith, omega arith)
header_go-Moves rest s i n HeaderState.st_req_end p le lt h = (omega arith, omega arith)
header_go-Moves rest s i n _ p le lt h = h

header_next-Moves :
    (rest : HeaderState → Parser → Ret × Parser) (s i n : ℕ) (step : Step)
    → Fine step
    → s ≤ i
    → suc i ≤ n
    → ((st : HeaderState) (p : Parser) → Moves s n (rest st p))
    → Moves s n (header_next rest i step)
unfolding header_next
header_next-Moves rest s i n (fail err p) f le lt h = refusal-Moves s n err p f
header_next-Moves rest s i n (go st p) f le lt h = header_go-Moves rest s i n st p le lt (h st p)

header_loop-Moves :
    (chars : List ℕ) (s i : ℕ) (st : HeaderState) (p : Parser)
    → s ≤ i
    → Moves s (i + length chars) (header_loop chars i st p)
unfolding header_loop
header_loop-Moves [] s i st p le = omega arith
header_loop-Moves (ch ∷ chars) s i st p le =
    header_next-Moves (header_loop chars (suc i)) s i (i + suc (length chars))
      (header_step st i ch p) (header_step-Fine st i ch p) le (omega arith)
      (λ st' p'.
        rw (add_suc i (length chars))
          (header_loop-Moves chars s (suc i) st' p' (omega (arith, le))))

-- On every input, for a parser that starts inside the buffer: behind a header line, or the empty line
-- that ends the headers, the parser has moved on and is inside the buffer; for a partial line it stops
-- one character behind the buffer's end; any other result is an error code.
pub header_line-Moves :
    (buf : List ℕ) (p : Parser)
    → p.start ≤ length buf
    → Moves p.start (length buf) (parse_header_line buf p)
unfolding parse_header_line
header_line-Moves buf p h =
    let left : p.start + length (drop p.start buf) ≡ length buf =
      omega (arith, length-drop p.start buf, h) in
    subst (λ n. Moves p.start n (parse_header_line buf p)) left
      (header_loop-Moves (drop p.start buf) p.start p.start _ p (omega arith))
