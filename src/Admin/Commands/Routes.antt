-- ===== src/Admin/Commands/Routes.antt =====
-- Which paths `a_complete_req` takes for a command.
use niubix.Base.{
  ℕ, ◌==◌, ◌≡◌, refl, ap, Bool, true, false, ◌&&◌, List, [], ◌∷◌, ◌++◌, Option, none, some,
  if◌then◌else◌, length, same_bytes, codes,
}
use niubix.Admin.Commands.{
  Command, to_set_down, to_set_weight, to_shutdown, to_reload, to_conf_version, same_start, matches,
  command_for,
}

-- The commands by their paths, in the order in which the code tests them.
abbrev pub routes : List (List ℕ × Command)
routes =
    (codes "/set_backend_down", to_set_down)
    ∷ (codes "/set_backend_weight", to_set_weight)
    ∷ (codes "/shutdown", to_shutdown)
    ∷ (codes "/reload", to_reload)
    ∷ (codes "/conf_version", to_conf_version)
    ∷ []

pub is_start_of : List ℕ → List ℕ → Bool
is_start_of [] path = true
is_start_of (a ∷ uri) [] = false
is_start_of (a ∷ uri) (b ∷ path) = (a == b) && is_start_of uri path

-- The first command whose path passes a test.
pub first_route : (List ℕ → Bool) → List (List ℕ × Command) → Option Command
first_route test [] = none
first_route test ((path, c) ∷ rest) =
    let later = first_route test rest in if test path then some c else later

same_start-is_start_of :
    (uri rest path : List ℕ) → same_start (length uri) (uri ++ rest) path ≡ is_start_of uri path
unfolding same_start is_start_of
same_start-is_start_of [] rest path = refl
same_start-is_start_of (a ∷ uri) rest [] = refl
same_start-is_start_of (a ∷ uri) rest (b ∷ path) =
    ap (λ t. (a == b) && t) (same_start-is_start_of uri rest path)

-- With a query, the command is the first one whose path starts with the path of the URI, so any short form
-- of it is accepted; without a query it is the one of exactly this path.
pub command_for-routes :
    (path query : List ℕ)
    → (command_for (some (length path)) (path ++ 63 ∷ query)
        ≡ first_route (is_start_of path) routes)
      × (command_for none path ≡ first_route (same_bytes path) routes)
unfolding command_for matches first_route
command_for-routes path query =
    let same : (t : List ℕ) → same_start (length path) (path ++ 63 ∷ query) t ≡ is_start_of path t =
      same_start-is_start_of path (63 ∷ query) in
    (simp same refl, refl)
