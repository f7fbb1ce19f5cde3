-- ===== src/Config/Valid.antt =====
-- What holds of the apps that `load_conf` accepts.
use niubix.Base.{
  same_bytes, ℕ, ◌≡◌, refl, sym, ap, ◌∙◌, subst, Bool, true, false, not, ◌||◌, List, [], ◌∷◌, ◌++◌,
  some, ltb, length, Bool-cases, inl, inr,
}
use niubix.Base.Int.{ℤ}
use niubix.Config.Addr.{parse_ip_port}
use niubix.Config.Load.{
  Protocol, AppJson, AppConf, Loaded, empty_conf, has, bound_to, protocol_of, is_tcp, default_text,
}
use niubix.Config.Apps.{named, bind_port, host_of, build, push_app, load_app, load_conf}
use niubix.Config.Good.{Ensures, any, and_then-Ensures, else-Ensures, IsGood, build-IsGood}

-- The apps' names, newest first.
abbrev rev_names : List (List ℕ) → List AppConf → List (List ℕ)
rev_names names [] = names
rev_names names (cf ∷ cfs) = rev_names (cf.name ∷ names) cfs

rev_names-snoc :
    (names : List (List ℕ)) (cfs : List AppConf) (cf : AppConf)
    → rev_names names (cfs ++ cf ∷ []) ≡ cf.name ∷ rev_names names cfs
rev_names-snoc names [] cf = refl
rev_names-snoc names (c ∷ cfs) cf = rev_names-snoc (c.name ∷ names) cfs cf

abbrev pub AllDiffer : List (List ℕ) → Type 0
AllDiffer [] = Unit {0}
AllDiffer (n ∷ ns) = (has n ns ≡ false) × AllDiffer ns

abbrev pub AllApps : List AppConf → Type 0
AllApps [] = Unit {0}
AllApps (cf ∷ cfs) = IsGood cf × AllApps cfs

AllApps-snoc :
    (cfs : List AppConf) (cf : AppConf) → AllApps cfs → IsGood cf → AllApps (cfs ++ cf ∷ [])
AllApps-snoc [] cf all g = (g, tt)
AllApps-snoc (c ∷ cfs) cf (h, all) g = (h, AllApps-snoc cfs cf all g)

-- What has been loaded: good apps, whose names are those of the set and differ.
abbrev pub IsValid : Loaded → Type 0
IsValid l = AllApps l.alls × (l.names ≡ rev_names [] l.alls) × AllDiffer l.names

-- In the middle of a round: the name of the app is in the set, and the app is not yet in the list.
abbrev Half : AppJson → Loaded → Type 0
Half j l =
    AllApps l.alls
    × (l.names ≡ j.name ∷ rev_names [] l.alls)
    × AllDiffer l.names
    × (ltb 0 (length j.name) ≡ true)

named_new : (x y : Bool) → (not x || y) ≡ false → (x ≡ true) × (y ≡ false)
named_new true false h = (refl, refl)
named_new true true h = cc h
named_new false y h = cc h

named-Half : (j : AppJson) (l : Loaded) → IsValid l → Ensures (Half j) (named j l)
unfolding named
named-Half j l (all, names, differ) =
    else-Ensures (Half j) (not (ltb 0 (length j.name)) || has j.name l.names) _ (λ c.
      let (n, fresh) = named_new (ltb 0 (length j.name)) (has j.name l.names) c in
      (all, ap (λ ns. j.name ∷ ns) names, (fresh, differ), n))

bind_port-Half :
    (j : AppJson) (port : ℤ) (protocol : Protocol) (l : Loaded)
    → Half j l
    → Ensures (Half j) (bind_port j port protocol l)
unfolding bind_port
bind_port-Half j port protocol l h =
    else-Ensures (Half j) (same_bytes (bound_to port l.bound) j.protocol) _ (λ c. h)

host_of-Half :
    (j : AppJson) (port : ℤ) (protocol : Protocol) (l : Loaded)
    → Half j l
    → Ensures (λ r. Half j r.1) (host_of j port protocol l)
unfolding host_of
host_of-Half j port protocol l h =
    let P : (List ℕ × Bool) × Loaded → Type 0 = λ r. Half j r.1 in
    let is_default = same_bytes j.http_host default_text in
    elim (Bool-cases (is_tcp protocol)) [
      | inl t ↦ rw t h
      | inr t ↦ elim (Bool-cases is_default) [
        | inl d ↦ simp (t, d) (else-Ensures P _ (some _) (λ c. h))
        | inr d ↦ simp (t, d) (else-Ensures P _ (some _) (λ c. h))
      ]
    ]

push_app-IsValid :
    (j : AppJson) (port : ℤ) (cf : AppConf) (l : Loaded)
    → Half j l
    → IsGood cf × (cf.name ≡ j.name)
    → IsValid (push_app port cf l)
unfolding push_app
push_app-IsValid j port cf l (all, names, differ, n) (good, e) = (
  AllApps-snoc l.alls cf all good,
  names ∙ ap (λ n. n ∷ rev_names [] l.alls) (sym e) ∙ sym (rev_names-snoc [] l.alls cf),
  differ,
)

load_app-IsValid : (j : AppJson) (l : Loaded) → IsValid l → Ensures IsValid (load_app j l)
unfolding load_app
load_app-IsValid j l v =
    and_then-Ensures (Half j) IsValid (named j l) _ (named-Half j l v) (λ l1 h1.
      and_then-Ensures (λ a. Unit {0}) IsValid (parse_ip_port j.listen) _ (any _)
        (λ addr u.
          and_then-Ensures (λ a. Unit {0}) IsValid (protocol_of j.protocol) _ (any _)
            (λ protocol u'.
              and_then-Ensures (Half j) IsValid (bind_port j addr.1 protocol l1) _
                (bind_port-Half j addr.1 protocol l1 h1)
                (λ l2 h2.
                  and_then-Ensures (λ r. Half j r.1) IsValid (host_of j addr.1 protocol l2) _
                    (host_of-Half j addr.1 protocol l2 h2)
                    (λ host h3.
                      and_then-Ensures (λ cf. IsGood cf × (cf.name ≡ j.name)) IsValid
                        (build j protocol host.0) _ (build-IsGood j protocol host.0 (h3.3))
                        (λ cf good. push_app-IsValid j addr.1 cf host.1 h3 good))))))

load_conf-Ensures : (js : List AppJson) (l : Loaded) → IsValid l → Ensures IsValid (load_conf js l)
unfolding load_conf
load_conf-Ensures [] l v = v
load_conf-Ensures (j ∷ js) l v =
    and_then-Ensures IsValid IsValid (load_app j l) (load_conf js) (load_app-IsValid j l v)
      (λ l' v'. load_conf-Ensures js l' v')

-- If `load_conf` accepts a configuration, then every app in it has a name of its own, positive time
-- limits and at least one backend, under round robin a total weight other than 0, and for each backend a
-- weight that is not negative, a host and, where a health check is asked for, a time limit and a text
-- that fits the protocol.
pub load_conf-IsValid :
    (js : List AppJson) (l : Loaded) → load_conf js empty_conf ≡ some l → IsValid l
load_conf-IsValid js l e =
    subst (Ensures IsValid) e (load_conf-Ensures js empty_conf (tt, refl, tt))
