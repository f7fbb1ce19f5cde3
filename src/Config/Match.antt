-- ===== src/Config/Match.antt =====
-- `app::match_app_by_host`: the app for a request's Host, among all apps. `http_host` has no NUL.
use niubix.Base.{
  ℕ, ◌≡◌, refl, Bool, true, false, ◌&&◌, List, [], ◌∷◌, Option, none, some, if◌then◌else◌,
  Bool-cases, inl, inr,
}
use niubix.Request.Text.{same_text}
use niubix.Config.Load.{AppConf}

abbrev pub is_none : {A : Type 0} → Option A → Bool
is_none none = true
is_none (some a) = false

-- The loop, with `default_one`; `strcasecmp` is `same_text`.
pub match_loop : List ℕ → Option AppConf → List AppConf → Option AppConf
match_loop host default_one [] = default_one
match_loop host default_one (ap ∷ aps) =
    let next = if is_none default_one && ap.is_default then some ap else default_one in
    let rest = match_loop host next aps in if same_text ap.http_host host then some ap else rest

pub match_app_by_host : List AppConf → List ℕ → Option AppConf
match_app_by_host alls host = match_loop host none alls

-- The first app that passes a test, and an alternative.
pub find_app : (AppConf → Bool) → List AppConf → Option AppConf
find_app test [] = none
find_app test (ap ∷ aps) = let rest = find_app test aps in if test ap then some ap else rest

abbrev pub or_else : {A : Type 0} → Option A → Option A → Option A
or_else none b = b
or_else (some a) b = some a

match_loop-find_app :
    (host : List ℕ) (d : Option AppConf) (aps : List AppConf)
    → match_loop host d aps
      ≡ or_else
          (find_app (λ ap. same_text ap.http_host host) aps)
          (or_else d (find_app (λ ap. ap.is_default) aps))
unfolding match_loop find_app
match_loop-find_app host none [] = refl
match_loop-find_app host (some d) [] = refl
match_loop-find_app host none (ap ∷ aps) = elim (Bool-cases (same_text ap.http_host host)) [
  | inl e ↦ rw e refl
  | inr e ↦ elim (Bool-cases ap.is_default) [
    | inl f ↦ simp (e, f) (match_loop-find_app host (some ap) aps)
    | inr f ↦ simp (e, f) (match_loop-find_app host none aps)
  ]
]
match_loop-find_app host (some d) (ap ∷ aps) = elim (Bool-cases (same_text ap.http_host host)) [
  | inl e ↦ rw e refl
  | inr e ↦ rw e (match_loop-find_app host (some d) aps)
]

-- The app of a host is the first one with this `http_host`, in any case of the letters; if there is none it is
-- the first default app. Every app takes part, on whatever port it listens.
pub match_app_by_host-find_app :
    (alls : List AppConf) (host : List ℕ)
    → match_app_by_host alls host
      ≡ or_else
          (find_app (λ ap. same_text ap.http_host host) alls)
          (find_app (λ ap. ap.is_default) alls)
unfolding match_app_by_host
match_app_by_host-find_app alls host = match_loop-find_app host none alls
