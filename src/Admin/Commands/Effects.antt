-- ===== src/Admin/Commands/Effects.antt =====
-- What the setters of the administrator change.
use niubix.Base.{
  ℕ, ◌<◌, ◌≡◌, ◌⊎◌, Bool, true, false, List, [], ◌∷◌, length, get_or, set, same_bytes, codes,
  if◌then◌else◌,
}
use niubix.App.{Backend}
use niubix.App
use niubix.App.Hosts.{FirstChanged}
use niubix.Request.State.{is_empty}
use niubix.Admin.{App as AdminApp, Admin}
use niubix.Admin.Query.Print.{query_of, IsPlain, Without, lacks, lacks→Without}

abbrev pub no_app : AdminApp
no_app = record { name = []; backends = [] }

abbrev pub app_at : List AdminApp → ℕ → AdminApp
app_at aps i = get_or aps i no_app

-- Only in the first app of the name, only the first backend of the host is changed; without such an app, or
-- without such a backend in it, nothing is, and the answer is false.
abbrev pub OneChanged :
    List ℕ → List ℕ → (Backend → Backend) → List AdminApp → List AdminApp × Bool → Type 0
OneChanged name host change aps r =
    (((d : ℕ) → d < length aps → same_bytes (app_at aps d).name name ≡ false) × (r ≡ (aps, false)))
    ⊎ ((i : ℕ) × (i < length aps)
        × (same_bytes (app_at aps i).name name ≡ true)
        × ((d : ℕ) → d < i → same_bytes (app_at aps d).name name ≡ false)
        × ((bps : List Backend × Bool) × FirstChanged host change (app_at aps i).backends bps
            × (r ≡ (set aps i (record (app_at aps i) { backends = bps.0 }), bps.1))))

abbrev pub flag : Bool → List ℕ
flag b = if b then codes "true" else codes "false"

-- "name=…&host=…&down=…".
abbrev pub down_query : List ℕ → List ℕ → Bool → List ℕ
down_query name host down =
    query_of (codes "name", name) ((codes "host", host) ∷ (codes "down", flag down) ∷ [])

abbrev pub IsValue : List ℕ → Type 0
IsValue text = (is_empty text ≡ false) × Without 38 text × Without 0 text

named :
    (key value : List ℕ)
    → lacks 61 key ≡ true
    → lacks 38 key ≡ true
    → lacks 0 key ≡ true
    → IsValue value
    → IsPlain (key, value)
named key value a b c (e, v, w) =
    (lacks→Without 61 key a, (lacks→Without 38 key b, v), (lacks→Without 0 key c, w))
