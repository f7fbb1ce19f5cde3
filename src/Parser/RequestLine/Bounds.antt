-- ===== src/Parser/RequestLine/Bounds.antt =====
-- src/http_parser.cpp, `parse_request_line` on every input: the pointers that it leaves.
use niubix.Base.{
  ℕ, suc, ◌+◌, ◌-◌, ◌≤◌, ◌<◌, List, [], ◌∷◌, Option, some, none, ◌≡◌, ◌≢◌, refl, drop, length, ltb,
  ◌==◌, add_suc, length-drop, sym, ap, subst, if◌then◌else◌, Bool, true, false, ltb→ge, ◌&&◌, not,
}
use niubix.Base.Int.{ℤ, pos, negsuc, ltb_ℤ, ◌+ℤ◌}
use niubix.Parser.{Method, Ret, Parser, index, signed_char}
use niubix.Parser.RequestLine.{
  Line, LineState, Step, go, fail, line_loop, line_next, line_go, line_step, method_of, end_method,
  parse_request_line,
}
use native.Mathlib.Omega.{arith}

-- The URI found in a line that starts at `s`, when the next character is at `i`.
abbrev pub UriStarted : ℕ → ℕ → Parser → Type 0
UriStarted s i p =
    (p.req_start ≡ some s)
    × (p.method ≢ Method.http_unknown)
    × (u : ℕ) × (p.uri_start ≡ some u)
    × (s < u)
    × (u < i)
    × (i ≤ u + 2049)

abbrev pub UriEnded : ℕ → ℕ → Parser → Type 0
UriEnded s i p =
    (p.req_start ≡ some s)
    × (p.method ≢ Method.http_unknown)
    × (u : ℕ) × (e : ℕ) × (p.uri_start ≡ some u)
    × (p.uri_end ≡ some e)
    × (s < u)
    × (u < e)
    × (e ≤ u + 2049)
    × (e < i)

abbrev Inside : ℕ → ℕ → LineState → Parser → Type 0
Inside s i LineState.st_start p = s ≡ i
Inside s i LineState.st_method p = (p.req_start ≡ some s) × (s < i)
Inside s i LineState.st_spaces_before_uri p =
    (p.req_start ≡ some s) × (p.method ≢ Method.http_unknown) × (s < i)
Inside s i LineState.st_after_slash_in_uri p = UriStarted s i p
Inside s i _ p = UriEnded s i p

-- The codes of a refused request line.
abbrev pub IsRefusal : Ret → Type 0
IsRefusal Ret.http_err_400 = Unit {0}
IsRefusal Ret.http_err_405 = Unit {0}
IsRefusal Ret.http_err_414 = Unit {0}
IsRefusal Ret.http_err_505 = Unit {0}
IsRefusal _ = ⊥

abbrev Fine : ℕ → ℕ → Step → Type 0
Fine s i (go l) = Inside s i l.state l.parser
Fine s i (fail err p) = IsRefusal err

Fine-if :
    (s i : ℕ) (b : Bool) (x y : Step)
    → (b ≡ true → Fine s i x)
    → (b ≡ false → Fine s i y)
    → Fine s i (if b then x else y)
Fine-if s i true x y f g = f refl
Fine-if s i false x y f g = g refl

Fine-stay :
    (st : LineState) (s i : ℕ) (l : Line) → l.state ≡ st → Inside s i st l.parser → Fine s i (go l)
Fine-stay st s i l e h = rw e h

known_method : (z : ℤ) → method_of z ≢ some Method.http_unknown
unfolding method_of
known_method (negsuc n) e = ground arith
known_method (pos n) e = ground arith

end_method-Inside :
    (s i : ℕ) (m : Option Method) (l : Line)
    → m ≢ some Method.http_unknown
    → l.parser.req_start ≡ some s
    → s < i
    → Fine s (suc i) (end_method m i l)
unfolding end_method
end_method-Inside s i none l n r h = tt
end_method-Inside s i (some m) l n r h = (r, λ e. n (ap some e), omega (arith, h))

line_step-Inside :
    (st : LineState) (s i ch : ℕ) (l : Line)
    → l.state ≡ st
    → Inside s i st l.parser
    → Fine s (suc i) (line_step st i ch l)
unfolding line_step
line_step-Inside LineState.st_start s i ch l e h =
    Fine-if s (suc i) (ltb 64 ch && ltb ch 89) _ _ (λ _. (ap some (sym h), omega (arith, h)))
      (λ _. tt)
line_step-Inside LineState.st_method s i ch l e (r, h) =
    let next = Fine-stay LineState.st_method s (suc i) in
    Fine-if s (suc i) (ch == 32) _ _
      (λ _. end_method-Inside s i (method_of l.mv) l (known_method l.mv) r h)
      (λ _.
        Fine-if s (suc i) (ltb_ℤ (pos 540) (l.mv +ℤ signed_char ch)) _ _ (λ _. tt)
          (λ _. next (record l { mv = l.mv +ℤ signed_char ch }) e (r, omega (arith, h))))
line_step-Inside LineState.st_spaces_before_uri s i ch l e (r, m, h) =
    Fine-if s (suc i) (ch == 47) _ _ (λ _. (r, m, i, refl, h, omega arith, omega arith))
      (λ _.
        Fine-if s (suc i) ((ch == 32) && not (ltb 8 (i - l.space_before_uri_pos))) _ _
          (λ _. Fine-stay LineState.st_spaces_before_uri s (suc i) l e (r, m, omega (arith, h)))
          (λ _. tt))
line_step-Inside LineState.st_after_slash_in_uri s i ch l e (r, m, u, a, b, c, d) =
    let ended : UriEnded s (suc i) (record l.parser { uri_end = some i }) =
      (r, m, u, i, a, refl, b, c, d, omega arith) in
    Fine-if s (suc i) (ch == 32) _ _ (λ _. ended)
      (λ _.
        Fine-if s (suc i) (ch == 13) _ _ (λ _. ended)
          (λ _.
            Fine-if s (suc i) (ltb 2048 (i - index l.parser.uri_start)) _ _ (λ _. tt)
              (λ f.
                let near : i - u ≤ 2048 = ltb→ge 2048 (i - u) (rw a at f) in
                Fine-stay LineState.st_after_slash_in_uri s (suc i) l e
                  (r, m, u, a, b, omega (arith, c), omega (arith, near)))))
line_step-Inside LineState.st_http_09 s i ch l e h = ground arith
line_step-Inside LineState.st_http_h s i ch l e h = ground arith
line_step-Inside LineState.st_http_ht s i ch l e h = ground arith
line_step-Inside LineState.st_http_htt s i ch l e h = ground arith
line_step-Inside LineState.st_http_http s i ch l e h = ground arith
line_step-Inside LineState.st_first_major_digit s i ch l e h = ground arith
line_step-Inside LineState.st_major_digit s i ch l e h = ground arith
line_step-Inside LineState.st_first_minor_digit s i ch l e h = ground arith
line_step-Inside LineState.st_minor_digit s i ch l e h = ground arith
line_step-Inside LineState.st_almost_done s i ch l e h = ground arith
line_step-Inside LineState.st_end s i ch l e h = ground arith

-- What the function leaves for a line that starts at `s`, in a buffer that ends at `n`.
abbrev pub Recorded : ℕ → ℕ → Ret × Parser → Type 0
Recorded s n (Ret.parse_ok, p) = UriEnded s p.start p × (p.start ≤ n)
Recorded s n (Ret.partial_req, p) = p.start ≡ suc n
Recorded s n (err, p) = IsRefusal err

suc_one : (i : ℕ) → i + 1 ≡ suc i
suc_one i = omega arith

refusal-Recorded : (s n : ℕ) (err : Ret) (p : Parser) → IsRefusal err → Recorded s n (err, p)
refusal-Recorded s n Ret.partial_req p h = absurd h
refusal-Recorded s n Ret.parse_ok p h = absurd h
refusal-Recorded s n Ret.end_of_req p h = h
refusal-Recorded s n Ret.http_err_200 p h = h
refusal-Recorded s n Ret.http_err_400 p h = h
refusal-Recorded s n Ret.http_err_405 p h = h
refusal-Recorded s n Ret.http_err_413 p h = h
refusal-Recorded s n Ret.http_err_414 p h = h
refusal-Recorded s n Ret.http_err_505 p h = h

line_go-Recorded :
    (rest : Line → Ret × Parser) (s i n : ℕ) (st : LineState) (l : Line)
    → Inside s (suc i) st l.parser
    → suc i ≤ n
    → Recorded s n (rest l)
    → Recorded s n (line_go rest i st l)
unfolding line_go
line_go-Recorded rest s i n LineState.st_end l h b r = rw (suc_one i) (h, b)
line_go-Recorded rest s i n _ l h b r = r

line_next-Recorded :
    (rest : Line → Ret × Parser) (s i n : ℕ) (step : Step)
    → Fine s (suc i) step
    → suc i ≤ n
    → ((l : Line) → Inside s (suc i) l.state l.parser → Recorded s n (rest l))
    → Recorded s n (line_next rest i step)
unfolding line_next
line_next-Recorded rest s i n (fail err p) h b r = refusal-Recorded s n err p h
line_next-Recorded rest s i n (go l) h b r = line_go-Recorded rest s i n l.state l h b (r l h)

line_loop-Recorded :
    (chars : List ℕ) (s i : ℕ) (l : Line)
    → Inside s i l.state l.parser
    → Recorded s (i + length chars) (line_loop chars i l)
unfolding line_loop
line_loop-Recorded [] s i l h = omega arith
line_loop-Recorded (ch ∷ chars) s i l h =
    line_next-Recorded (line_loop chars (suc i)) s i (i + suc (length chars)) _
      (line_step-Inside l.state s i ch l refl h) (omega arith)
      (λ l' h'. rw (add_suc i (length chars)) (line_loop-Recorded chars s (suc i) l' h'))

-- On every input, for a parser that starts inside the buffer: a parsed line starts where the parser
-- did, has a known method, and has the URI behind it, not empty and of at most 2049 characters,
-- which ends before the place where the parser stops, inside the buffer; for a partial line the
-- parser stops one character behind the buffer's end; any other result is an error code.
pub request_line-Recorded :
    (buf : List ℕ) (p : Parser)
    → p.start ≤ length buf
    → Recorded p.start (length buf) (parse_request_line buf p)
unfolding parse_request_line
request_line-Recorded buf p h =
    let left : p.start + length (drop p.start buf) ≡ length buf =
      omega (arith, length-drop p.start buf, h) in
    subst (λ n. Recorded p.start n (parse_request_line buf p)) left
      (line_loop-Recorded (drop p.start buf) p.start p.start _ refl)
