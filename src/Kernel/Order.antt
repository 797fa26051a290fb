-- ===== src/Kernel/Order.antt =====
-- Kernel versions are ordered by their three numbers.
use system_agent.Prelude.{◌≡◌, ◌↔◌, true, arith, ◌⊎◌, inl, inr, ◌∙◌}
use system_agent.Prelude.Int.{ℤ, pos, negsuc, ◌≤ℤ◌, ◌<ℤ◌}
use system_agent.Kernel.{Version, is_at_least, compare_versions}

-- The order of the three numbers, the first that differs deciding.
abbrev pub Below : Version → Version → Type 0
Below v w =
    (v.major <ℤ w.major)
    ⊎ (v.major ≡ w.major) × ((v.minor <ℤ w.minor) ⊎ (v.minor ≡ w.minor) × (v.patch <ℤ w.patch))

abbrev pub SameNumbers : Version → Version → Type 0
SameNumbers v w = (v.major ≡ w.major) × (v.minor ≡ w.minor) × (v.patch ≡ w.patch)

-- `Compare` returns -1, 0 or 1, and says which of the two versions is below the other in the
-- lexicographic order of the three numbers.
pub compare_versions_lem :
    (v w : Version)
    → (compare_versions v w ≡ negsuc 0) × Below v w
      ⊎ (compare_versions v w ≡ pos 0) × SameNumbers v w
      ⊎ (compare_versions v w ≡ pos 1) × Below w v
unfolding compare_versions
compare_versions_lem v w = ground arith

compare_of_Below : (v w : Version) → Below v w → compare_versions v w ≡ negsuc 0
unfolding compare_versions
compare_of_Below v w h = ground arith

Below-of_compare : (v w : Version) → compare_versions v w ≡ negsuc 0 → Below v w
unfolding compare_versions
Below-of_compare v w h = ground arith

compare_of_Above : (v w : Version) → Below w v → compare_versions v w ≡ pos 1
unfolding compare_versions
compare_of_Above v w h = ground arith

Above-of_compare : (v w : Version) → compare_versions v w ≡ pos 1 → Below w v
unfolding compare_versions
Above-of_compare v w h = ground arith

<ℤ_trans : (a b c : ℤ) → a <ℤ b → b <ℤ c → a <ℤ c
<ℤ_trans a b c p q = omega arith

Below-trans : (u v w : Version) → Below u v → Below v w → Below u w
Below-trans u v w (inl p) (inl q) = inl (<ℤ_trans u.major v.major w.major p q)
Below-trans u v w (inl p) (inr (e, q)) = inl (rw e at p)
Below-trans u v w (inr (e, p)) (inl q) = inl (rw e q)
Below-trans u v w (inr (e, inl p)) (inr (f, inl q)) =
    inr (e ∙ f, inl (<ℤ_trans u.minor v.minor w.minor p q))
Below-trans u v w (inr (e, inl p)) (inr (f, inr (g, q))) = inr (e ∙ f, inl (rw g at p))
Below-trans u v w (inr (e, inr (g, p))) (inr (f, inl q)) = inr (e ∙ f, inl (rw g q))
Below-trans u v w (inr (e, inr (g, p))) (inr (f, inr (k, q))) =
    inr (e ∙ f, inr (g ∙ k, <ℤ_trans u.patch v.patch w.patch p q))

-- Where `Compare` puts one version below a second and the second below a third, it puts the first
-- below the third; and it returns the opposite number when its arguments are exchanged.
pub compare_versions_trans :
    (u v w : Version)
    → (compare_versions u v ≡ negsuc 0
        → compare_versions v w ≡ negsuc 0
        → compare_versions u w ≡ negsuc 0)
      × ((compare_versions u v ≡ negsuc 0) ↔ (compare_versions v u ≡ pos 1))
compare_versions_trans u v w = (
  λ p q. compare_of_Below u w (Below-trans u v w (Below-of_compare u v p) (Below-of_compare v w q)),
  (
    λ p. compare_of_Above v u (Below-of_compare u v p),
    λ p. compare_of_Below u v (Above-of_compare v u p),
  ),
)

-- `IsAtLeast` agrees with `Compare` against the version with patch 0, where the patch is not
-- negative.
pub is_at_least_iff :
    (v w : Version)
    → pos 0 ≤ℤ v.patch
    → w.patch ≡ pos 0
    → (is_at_least v w.major w.minor ≡ true) ↔ (pos 0 ≤ℤ compare_versions v w)
unfolding is_at_least compare_versions
is_at_least_iff v w p q = ground arith
