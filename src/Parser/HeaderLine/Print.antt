-- ===== src/Parser/HeaderLine/Print.antt =====
-- src/http_parser.cpp, `parse_header_line` on the header lines that a client writes.
use niubix.Base.{
  ℕ, zero, suc, ◌+◌, ◌||◌, List, [], ◌∷◌, ◌++◌, Option, some, ◌≡◌, refl, ◌∙◌, ap, drop, length,
  replicate, Bool-cases, ◌==◌, false, true, inl, inr, add_suc, Bool,
}
use niubix.Parser.{Ret, Parser}
use niubix.Parser.HeaderLine.{
  HeaderState, header_loop, header_next, header_go, header_step, is_ctl, parse_header_line,
}
use native.Mathlib.Numerals.{unary_clauses}

-- The characters of a header's name behind the first.
abbrev pub IsNameRest : List ℕ → Type 0
IsNameRest [] = Unit {0}
IsNameRest (c ∷ cs) = ((c == 58) ≡ false) × (is_ctl c ≡ false) × IsNameRest cs

-- A name has a first character, which is no carriage return either.
abbrev pub IsName : List ℕ → Type 0
IsName [] = ⊥
IsName (c ∷ cs) = ((c == 13) ≡ false) × ((c == 58) ≡ false) × (is_ctl c ≡ false) × IsNameRest cs

name_lem :
    (cs rest : List ℕ) (i : ℕ) (p : Parser)
    → IsNameRest cs
    → header_loop (cs ++ 58 ∷ rest) i HeaderState.st_name p
      ≡ header_loop rest
          (suc (i + length cs))
          HeaderState.st_space_before_value
          (record p { header_name_end = some (i + length cs) })
unfolding header_loop header_next header_go header_step
name_lem [] rest i p h = simp unary_clauses refl
name_lem (c ∷ cs) rest i p (n, k, h) =
    rw (n, k, add_suc i (length cs)) (name_lem cs rest (suc i) p h)

start_lem :
    (cs rest : List ℕ) (i : ℕ) (p : Parser)
    → IsName cs
    → header_loop (cs ++ 58 ∷ rest) i HeaderState.st_start p
      ≡ header_loop rest (suc (i + length cs)) HeaderState.st_space_before_value (record p {
        header_name_start = some i;
        header_start = some i;
        header_name_end = some (i + length cs);
      })
unfolding header_loop header_next header_go header_step
start_lem [] rest i p h = absurd h
start_lem (c ∷ cs) rest i p (r, n, k, h) =
    rw (r, n, k, add_suc i (length cs))
      (name_lem cs rest (suc i) (record p { header_name_start = some i; header_start = some i }) h)

blanks_lem :
    (n : ℕ) (rest : List ℕ) (i : ℕ) (p : Parser)
    → header_loop (replicate n 32 ++ rest) i HeaderState.st_space_before_value p
      ≡ header_loop rest (i + n) HeaderState.st_space_before_value p
unfolding header_loop header_next header_go header_step
blanks_lem zero rest i p = simp unary_clauses refl
blanks_lem (suc n) rest i p = rw (add_suc i n) (blanks_lem n rest (suc i) p)

-- The state in the middle of a value, and behind a space in it.
abbrev value_state : Bool → HeaderState
value_state false = HeaderState.st_value
value_state true = HeaderState.st_space_after_value

-- A value behind its first character, and perhaps behind a space in it: no carriage return, and no
-- space at the end.
abbrev pub IsValueRest : Bool → List ℕ → Type 0
IsValueRest false [] = Unit {0}
IsValueRest true [] = ⊥
IsValueRest after (c ∷ cs) = ((c == 13) ≡ false) × IsValueRest (c == 32) cs

abbrev pub IsValue : List ℕ → Type 0
IsValue [] = ⊥
IsValue (c ∷ cs) =
    (((c == 32) || (c == 9)) ≡ false)
    × ((c == 13) ≡ false)
    × ((c == 0) ≡ false)
    × IsValueRest false cs

-- Whatever end the reading of a value has recorded, it is written again behind the value.
abbrev InValue : List ℕ → List ℕ → ℕ → HeaderState → Parser → Type 0
InValue cs rest i st p =
    (e : Option ℕ) × (header_loop (cs ++ rest) i st p
      ≡ header_loop rest (i + length cs) HeaderState.st_value (record p { value_end = e }))

value_rest_lem :
    (after : Bool) (cs rest : List ℕ) (i : ℕ) (p : Parser)
    → IsValueRest after cs
    → InValue cs rest i (value_state after) p
unfolding header_loop header_next header_go header_step
value_rest_lem false [] rest i p h = (p.value_end, simp unary_clauses refl)
value_rest_lem true [] rest i p h = absurd h
value_rest_lem false (c ∷ cs) rest i p (n, h) = elim (Bool-cases (c == 32)) [
  | inl s ↦
      let (e, q) =
        value_rest_lem true cs rest (suc i) (record p { value_end = some i }) (rw s at h) in
      (e, rw (s, add_suc i (length cs)) q)
  | inr s ↦
      let (e, q) = value_rest_lem false cs rest (suc i) p (rw s at h) in
      (e, rw (s, n, add_suc i (length cs)) q)
]
value_rest_lem true (c ∷ cs) rest i p (n, h) = elim (Bool-cases (c == 32)) [
  | inl s ↦
      let (e, q) = value_rest_lem true cs rest (suc i) p (rw s at h) in
      (e, rw (s, add_suc i (length cs)) q)
  | inr s ↦
      let (e, q) = value_rest_lem false cs rest (suc i) p (rw s at h) in
      (e, rw (s, n, add_suc i (length cs)) q)
]

value_lem :
    (cs rest : List ℕ) (i : ℕ) (p : Parser)
    → IsValue cs
    → (e : Option ℕ) × (header_loop (cs ++ rest) i HeaderState.st_space_before_value p
        ≡ header_loop rest
            (i + length cs)
            HeaderState.st_value
            (record p { value_start = some i; value_end = e }))
unfolding header_loop header_next header_go header_step
value_lem [] rest i p h = absurd h
value_lem (c ∷ cs) rest i p (b, r, z, h) =
    let (e, q) = value_rest_lem false cs rest (suc i) (record p { value_start = some i }) h in
    (e, rw (b, r, z, add_suc i (length cs)) q)

-- The end of the line, behind some spaces.
trailing_lem :
    (n : ℕ) (rest : List ℕ) (i : ℕ) (p : Parser)
    → header_loop (replicate n 32 ++ 13 ∷ 10 ∷ rest) i HeaderState.st_space_after_value p
      ≡ (Ret.parse_ok, record p { start = i + n + 2 })
unfolding header_loop header_next header_go header_step
trailing_lem zero rest i p = simp unary_clauses refl
trailing_lem (suc n) rest i p = rw (add_suc i n) (trailing_lem n rest (suc i) p)

end_lem :
    (n : ℕ) (rest : List ℕ) (i : ℕ) (p : Parser)
    → header_loop (replicate n 32 ++ 13 ∷ 10 ∷ rest) i HeaderState.st_value p
      ≡ (Ret.parse_ok, record p { value_end = some i; start = i + n + 2 })
unfolding header_loop header_next header_go header_step
end_lem zero rest i p = simp unary_clauses refl
end_lem (suc n) rest i p =
    rw (add_suc i n) (trailing_lem n rest (suc i) (record p { value_end = some i }))

-- A header line, in front of what follows it.
abbrev pub print : List ℕ → ℕ → List ℕ → ℕ → List ℕ → List ℕ
print name blanks value trailing rest =
    name ++ 58 ∷ (replicate blanks 32 ++ (value ++ (replicate trailing 32 ++ 13 ∷ 10 ∷ rest)))

-- If the buffer holds a header line, with any spaces before and behind a value that has none at its
-- ends, then `parse_header_line` accepts it whatever follows: it records where the name and the
-- value start and end, changes nothing else, and stops behind the line.
pub parse_header-print :
    (buf name : List ℕ) (blanks : ℕ) (value : List ℕ) (trailing : ℕ) (rest : List ℕ) (p : Parser)
    → IsName name
    → IsValue value
    → drop p.start buf ≡ print name blanks value trailing rest
    → let name_end = p.start + length name in
      let value_at = name_end + 1 + blanks in
      parse_header_line buf p ≡ (
        Ret.parse_ok,
        record p {
          start = value_at + length value + trailing + 2;
          header_name_start = some p.start;
          header_name_end = some name_end;
          header_start = some p.start;
          value_start = some value_at;
          value_end = some (value_at + length value);
        },
      )
unfolding parse_header_line
parse_header-print buf name blanks value trailing rest p n v h =
    let i = p.start in
    let j = suc (i + length name) in
    let p1 = record p {
      header_name_start = some i;
      header_start = some i;
      header_name_end = some (i + length name);
    } in
    let (e, q) = value_lem value (replicate trailing 32 ++ 13 ∷ 10 ∷ rest) (j + blanks) p1 v in
    ap (λ cs. header_loop cs i HeaderState.st_start p) h
    ∙ start_lem name _ i p n
    ∙ blanks_lem blanks _ j p1
    ∙ q
    ∙ end_lem trailing rest _ (record p1 { value_start = some (j + blanks); value_end = e })
    ∙ simp unary_clauses refl

empty_end_lem :
    (rest : List ℕ) (i : ℕ) (p : Parser)
    → header_loop (13 ∷ 10 ∷ rest) i HeaderState.st_space_before_value p
      ≡ (Ret.parse_ok, record p { req_end = some i; start = i + 2 })
unfolding header_loop header_next header_go header_step
empty_end_lem rest i p = simp unary_clauses refl

-- A header line without a value is accepted too, but then `value_start` and `value_end` stay as the
-- parser had them before, for the header above it, and `req_end` is set to the end of this line.
pub parse_header-empty :
    (buf name : List ℕ) (blanks : ℕ) (rest : List ℕ) (p : Parser)
    → IsName name
    → drop p.start buf ≡ name ++ 58 ∷ (replicate blanks 32 ++ 13 ∷ 10 ∷ rest)
    → let name_end = p.start + length name in
      parse_header_line buf p ≡ (
        Ret.parse_ok,
        record p {
          start = name_end + 1 + blanks + 2;
          header_name_start = some p.start;
          header_name_end = some name_end;
          header_start = some p.start;
          req_end = some (name_end + 1 + blanks);
        },
      )
unfolding parse_header_line
parse_header-empty buf name blanks rest p n h =
    let i = p.start in
    let j = suc (i + length name) in
    let p1 = record p {
      header_name_start = some i;
      header_start = some i;
      header_name_end = some (i + length name);
    } in
    ap (λ cs. header_loop cs i HeaderState.st_start p) h
    ∙ start_lem name _ i p n
    ∙ blanks_lem blanks _ j p1
    ∙ empty_end_lem rest (j + blanks) p1
    ∙ simp unary_clauses refl
