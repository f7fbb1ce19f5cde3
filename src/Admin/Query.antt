-- ===== src/Admin/Query.antt =====
-- `parse_query_params` of src/admin.cpp. The map is an association list, the last assignment first, and
-- `bf`, which ends at a NUL, a list without one.
pub mod Print
use niubix.Base.{ℕ, ◌==◌, List, [], ◌∷◌, ◌++◌, if◌then◌else◌, same_bytes}
use niubix.Request.Text.{before}

abbrev pub Params : Type 0
Params = List (List ℕ × List ℕ)

-- `params[name]`: a name that is not in the map gets an empty value.
unfoldable pub value_of : List ℕ → Params → List ℕ
value_of name [] = []
value_of name ((key, value) ∷ params) =
    let rest = value_of name params in if same_bytes key name then value else rest

-- The two sides of the first '=' of a token, the right one empty without it.
unfoldable pub behind : ℕ → List ℕ → List ℕ
behind sep [] = []
behind sep (b ∷ bytes) = let rest = behind sep bytes in if b == sep then bytes else rest

abbrev pub split : List ℕ → List ℕ × List ℕ
split token = (before 61 token, behind 61 token)

-- A token that `strtok_r` returns is not empty.
unfoldable pub assign : List ℕ → Params → Params
assign [] params = params
assign (b ∷ token) params = split (b ∷ token) ∷ params

-- `strtok_r` with "&": the bytes `token` are those of the token so far.
unfoldable pub tokens : List ℕ → List ℕ → Params → Params
tokens token [] params = assign token params
tokens token (b ∷ bytes) params =
    let ended = tokens [] bytes (assign token params) in
    let longer = tokens (token ++ b ∷ []) bytes params in if b == 38 then ended else longer

-- `strncpy` stops at a NUL.
unfoldable pub parse_query_params : List ℕ → Params
parse_query_params query = tokens [] (before 0 query) []
