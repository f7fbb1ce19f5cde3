-- ===== src/Admin/Query/Print.antt =====
-- What a client that writes its parameters gets from `parse_query_params`.
use niubix.Base.{
  ℕ, ◌==◌, ◌≡◌, ◌≢◌, refl, sym, ap, ◌∙◌, Bool, true, not, ◌&&◌, List, [], ◌∷◌, ◌++◌, ne→==_false,
}
use niubix.Request.Text.{before}
use niubix.Admin.Query.{Params, behind, assign, tokens, parse_query_params}
use native.Mathlib.Omega.{arith}
use mathlib.Core.List.{append_assoc, append-nil}

-- "name=value", and several of them with '&' between.
abbrev pub setting : List ℕ × List ℕ → List ℕ
setting (name, value) = name ++ 61 ∷ value

abbrev pub more_settings : Params → List ℕ
more_settings [] = []
more_settings (p ∷ ps) = 38 ∷ (setting p ++ more_settings ps)

abbrev pub query_of : List ℕ × List ℕ → Params → List ℕ
query_of p ps = setting p ++ more_settings ps

-- No byte of a text is `sep`.
abbrev pub Without : ℕ → List ℕ → Type 0
Without sep [] = Unit {0}
Without sep (b ∷ bytes) = (b ≢ sep) × Without sep bytes

-- What can be written: a name without '=', and neither part with a '&' or a NUL.
abbrev pub IsPlain : List ℕ × List ℕ → Type 0
IsPlain (name, value) =
    Without 61 name × (Without 38 name × Without 38 value) × (Without 0 name × Without 0 value)

abbrev pub ArePlain : Params → Type 0
ArePlain [] = Unit {0}
ArePlain (p ∷ ps) = IsPlain p × ArePlain ps

-- The test for it.
abbrev pub lacks : ℕ → List ℕ → Bool
lacks sep [] = true
lacks sep (b ∷ bytes) = not (b == sep) && lacks sep bytes

pub lacks→Without : (sep : ℕ) (xs : List ℕ) → lacks sep xs ≡ true → Without sep xs
lacks→Without sep [] h = tt
lacks→Without sep (x ∷ xs) h = (λ p. ground (arith, h, p), lacks→Without sep xs (ground (arith, h)))

Without-++ : (sep : ℕ) (xs ys : List ℕ) → Without sep xs → Without sep ys → Without sep (xs ++ ys)
Without-++ sep [] ys w v = v
Without-++ sep (x ∷ xs) ys (n, w) v = (n, Without-++ sep xs ys w v)

before-Without : (sep : ℕ) (xs : List ℕ) → Without sep xs → before sep xs ≡ xs
unfolding before
before-Without sep [] w = refl
before-Without sep (x ∷ xs) (n, w) = rw (ne→==_false x sep n, before-Without sep xs w) refl

before-sep : (sep : ℕ) (xs ys : List ℕ) → Without sep xs → before sep (xs ++ sep ∷ ys) ≡ xs
unfolding before
before-sep sep [] ys w = ground arith
before-sep sep (x ∷ xs) ys (n, w) = rw (ne→==_false x sep n, before-sep sep xs ys w) refl

behind-sep : (sep : ℕ) (xs ys : List ℕ) → Without sep xs → behind sep (xs ++ sep ∷ ys) ≡ ys
unfolding behind
behind-sep sep [] ys w = ground arith
behind-sep sep (x ∷ xs) ys (n, w) = rw (ne→==_false x sep n, behind-sep sep xs ys w) refl

assign-setting :
    (p : List ℕ × List ℕ) (acc : Params) → Without 61 p.0 → assign (setting p) acc ≡ p ∷ acc
unfolding assign
assign-setting ([], value) acc w = rw (before-sep 61 [] value w, behind-sep 61 [] value w) refl
assign-setting (b ∷ name, value) acc w =
    rw (before-sep 61 (b ∷ name) value w, behind-sep 61 (b ∷ name) value w) refl

tokens-run :
    (token xs rest : List ℕ) (acc : Params)
    → Without 38 xs
    → tokens token (xs ++ rest) acc ≡ tokens (token ++ xs) rest acc
unfolding tokens
tokens-run token [] rest acc w = rw (append-nil token) refl
tokens-run token (x ∷ xs) rest acc (n, w) =
    rw
      (
        ne→==_false x 38 n,
        tokens-run (token ++ x ∷ []) xs rest acc w,
        append_assoc token (x ∷ []) xs,
      )
      refl

setting-Without :
    (sep : ℕ) (p : List ℕ × List ℕ)
    → Without sep p.0 × Without sep p.1
    → 61 ≢ sep
    → Without sep (setting p)
setting-Without sep p (w, v) n = Without-++ sep p.0 (61 ∷ p.1) w (n, v)

tokens_end : (p : List ℕ × List ℕ) (acc : Params) → IsPlain p → tokens [] (setting p) acc ≡ p ∷ acc
unfolding tokens
tokens_end p acc w =
    let plain = setting-Without 38 p w.1 (λ e. absurd (omega (arith, e))) in
    ap (λ bytes. tokens [] bytes acc) (sym (append-nil (setting p)))
    ∙ (tokens-run [] (setting p) [] acc plain ∙ assign-setting p acc w.0)

-- The assignments in their order.
abbrev pub assigned : Params → Params → Params
assigned [] acc = acc
assigned (p ∷ ps) acc = assigned ps (p ∷ acc)

tokens-settings :
    (p : List ℕ × List ℕ) (ps acc : Params)
    → IsPlain p
    → ArePlain ps
    → tokens [] (query_of p ps) acc ≡ assigned (p ∷ ps) acc
unfolding tokens
tokens-settings p [] acc w ws =
    ap (λ bytes. tokens [] bytes acc) (append-nil (setting p)) ∙ tokens_end p acc w
tokens-settings p (q ∷ ps) acc w (w', ws) =
    let plain = setting-Without 38 p w.1 (λ e. absurd (omega (arith, e))) in
    rw (tokens-run [] (setting p) (38 ∷ query_of q ps) acc plain, assign-setting p acc w.0)
      (tokens-settings q ps (p ∷ acc) w' ws)

query-Without :
    (p : List ℕ × List ℕ) (ps : Params) → IsPlain p → ArePlain ps → Without 0 (query_of p ps)
query-Without p [] w ws =
    Without-++ 0 (setting p) [] (setting-Without 0 p w.2 (λ e. absurd (omega (arith, e)))) tt
query-Without p (q ∷ ps) w (w', ws) =
    Without-++ 0 (setting p) (38 ∷ query_of q ps)
      (setting-Without 0 p w.2 (λ e. absurd (omega (arith, e))))
      ((λ e. absurd (omega (arith, e))), query-Without q ps w' ws)

-- The parameters that are written, with '=' and '&', are read back in their order, if no name has a '=' or a
-- '&' and no value a '&', and no byte is a NUL.
pub parse_query_params-query_of :
    (p : List ℕ × List ℕ) (ps : Params)
    → IsPlain p
    → ArePlain ps
    → parse_query_params (query_of p ps) ≡ assigned (p ∷ ps) []
unfolding parse_query_params
parse_query_params-query_of p ps w ws =
    rw (before-Without 0 (query_of p ps) (query-Without p ps w ws)) (tokens-settings p ps [] w ws)
