-- ===== src/Balancer/Health.antt =====
-- `HealthCheck`: the goroutines of one tick, in whatever order they come to an end.
use service_template.Base.{
  ℕ, ◌==◌, ◌≡◌, refl, String, Option, List, [], ◌∷◌, ◌∙◌, inl, inr, Bool-cases, arith,
  if◌then◌else◌,
}
use service_template.Balancer.{
  Fleet, set_alive, is_alive, is_backend_alive, check_backend, check_backends,
}
use service_template.Balancer.Update.{contains}

-- Each of the addresses is marked by what its probe answers, and nothing else changes.
pub record Checked (probe : String → Option ℕ) (order : List ℕ) (f f' : Fleet) : Type 0 where
  pub marked :
      (p : ℕ)
      → is_alive p f'
        ≡ (if contains p order then is_backend_alive probe (f.url p) else is_alive p f)
  pub same_url : f'.url ≡ f.url
  pub same_fresh : f'.fresh ≡ f.fresh

check_backend-same :
    (probe : String → Option ℕ) (b : ℕ) (f : Fleet) → (check_backend probe b f).url ≡ f.url
unfolding check_backend set_alive
check_backend-same probe b f = refl

check_backend-at :
    (probe : String → Option ℕ) (b p : ℕ) (f : Fleet)
    → is_alive p (check_backend probe b f)
      ≡ (if p == b then is_backend_alive probe (f.url b) else is_alive p f)
unfolding check_backend set_alive is_alive
check_backend-at probe b p f = refl

marked_behind :
    (probe : String → Option ℕ) (b : ℕ) (order : List ℕ) (p : ℕ) (f : Fleet)
    → (if contains p order
        then is_backend_alive probe ((check_backend probe b f).url p)
        else is_alive p (check_backend probe b f))
      ≡ (if contains p (b ∷ order) then is_backend_alive probe (f.url p) else is_alive p f)
unfolding check_backend set_alive is_alive
marked_behind probe b order p f = elim (Bool-cases (p == b)) [
  | inl at ↦
      let same : p ≡ b = ground arith in
      elim (Bool-cases (contains p order)) [
        | inl more ↦ rw (more, at)
        | inr last ↦ rw (last, at, same)
      ]
  | inr other ↦ rw other
]

-- After the goroutines of one tick of `HealthCheck`, in any order, each backend of the list is alive
-- as its own probe says (it answered, with status 200), whatever it was before, and no other backend
-- and no URL has changed.
pub check_backends-Checked :
    (probe : String → Option ℕ) (order : List ℕ) (f : Fleet)
    → Checked probe order f (check_backends probe order f)
unfolding check_backends
check_backends-Checked probe [] f = record {
  marked = λ p. refl;
  same_url = refl;
  same_fresh = refl;
}
check_backends-Checked probe (b ∷ order) f =
    let rest = check_backends-Checked probe order (check_backend probe b f) in
    record {
      marked = λ p. rest.marked p ∙ marked_behind probe b order p f;
      same_url = rest.same_url ∙ check_backend-same probe b f;
      same_fresh = rest.same_fresh ∙ unfold check_backend set_alive in refl;
    }
