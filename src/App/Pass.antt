-- ===== src/App/Pass.antt =====
-- The arithmetic of smooth weighted round robin: what one selection does to the list.
use niubix.Base.{
  ℕ, suc, ◌≡◌, refl, ◌∙◌, false, List, [], ◌∷◌, arith, if◌then◌else◌, Bool-cases, inl, inr,
}
use niubix.Base.Int.{ℤ, pos, ◌+ℤ◌, int_laws}
use niubix.App.{Backend, Best, skipped, visit, wrr_loop}

-- What the loop leaves of a backend.
unfoldable pub bump : Backend → Backend
bump bp = if skipped bp then bp else record bp { current = bp.current +ℤ bp.weight }

unfoldable pub bump_all : List Backend → List Backend
bump_all [] = []
bump_all (bp ∷ bps) = bump bp ∷ bump_all bps

-- The weights that take part, added up.
unfoldable pub total_weight : List Backend → ℤ
total_weight [] = pos 0
total_weight (bp ∷ bps) = if skipped bp then total_weight bps else bp.weight +ℤ total_weight bps

pub score-serving :
    (bp : Backend) → skipped bp ≡ false → bp.current +ℤ bp.weight ≡ (bump bp).current
unfolding bump
score-serving bp e = ground arith

visit-bump : (i : ℕ) (t : ℤ) (best : Best) (bp : Backend) → (visit i t best bp).0 ≡ bump bp
unfolding visit bump
visit-bump i t best bp = ground arith

-- The loop bumps the backends in place.
pub wrr_loop-list :
    (i : ℕ) (t : ℤ) (best : Best) (bps : List Backend) → (wrr_loop i t best bps).0 ≡ bump_all bps
unfolding wrr_loop bump_all
wrr_loop-list i t best [] = refl
wrr_loop-list i t best (bp ∷ bps) =
    let seen = visit i t best bp in
    rw (visit-bump i t best bp, wrr_loop-list (suc i) seen.1 seen.2 bps)

-- It adds up the weights of the backends that take part.
pub wrr_loop-total :
    (i : ℕ) (t : ℤ) (best : Best) (bps : List Backend)
    → (wrr_loop i t best bps).1 ≡ t +ℤ total_weight bps
unfolding wrr_loop visit total_weight
wrr_loop-total i t best [] = omega int_laws
wrr_loop-total i t best (bp ∷ bps) = elim (Bool-cases (skipped bp)) [
  | inl e ↦ rw e (wrr_loop-total (suc i) t best bps)
  | inr e ↦ rw e (wrr_loop-total (suc i) (t +ℤ bp.weight) _ bps ∙ omega int_laws)
]
