-- ===== src/Prelude/LoopRules.antt =====
-- What a loop keeps and reaches.
use Prim.Native.Nat.{ℕ, zero, suc, ◌+◌, ◌≤◌, ◌<◌}
use mathlib.Core.Path.{◌≡◌, refl, subst}
use mathlib.Core.Option.{Option, none, some, some-injective}
use native.Mathlib.Omega.{arith}
use native.Mathlib.Decide.{ℕ_discrete}
use latest_zsim_dramsim.Prelude.Loops.{◌>>=◌, for_range, for_range?}

-- A chain of results that ends well has a result at each link.
pub >>=_inv {ℓ κ} :
    {A : Type ℓ} {B : Type κ} (m : Option A) (f : A → Option B) {b : B}
    → (m >>= f) ≡ some b
    → (a : A) × (m ≡ some a) × (f a ≡ some b)
>>=_inv none f e = cc
>>=_inv (some a) f e = (a, refl, e)

module _ {ℓ κ} {S : Type ℓ} (P : S → Type κ) where
  pub for_range_keep :
      (round : ℕ → S → S)
      → ((k : ℕ) (t : S) → P t → P (round k t))
      → (n i : ℕ) (s : S) → P s
      → P (for_range n i round s)
  unfolding for_range
  for_range_keep body keep zero i s p = p
  for_range_keep body keep (suc n) i s p =
      for_range_keep body keep n (i + 1) (body i s) (keep i s p)

  -- What one round brings about and every round keeps holds in the end.
  pub for_range_reach :
      (body : ℕ → S → S) (m : ℕ)
      → ((s : S) → P (body m s))
      → ((i : ℕ) (s : S) → P s → P (body i s))
      → (n i : ℕ) (s : S) → i ≤ m
      → m < i + n
      → P (for_range n i body s)
  unfolding for_range
  for_range_reach body m here keep zero i s lo hi = absurd (omega arith)
  for_range_reach body m here keep (suc n) i s lo hi = elim (ℕ_discrete i m) [
    | yes e ↦
        for_range_keep body keep n (i + 1) (body i s)
          (subst (λ j. P (body j s)) (λ k. e' e k) (here s))
    | no e ↦ for_range_reach body m here keep n (i + 1) (body i s) (omega arith) (omega arith)
  ]
    where
      e' : i ≡ m → m ≡ i
      e' q = omega arith

  pub for_range?_keep :
      (body : ℕ → S → Option S)
      → ((i : ℕ) (s s' : S) → P s → body i s ≡ some s' → P s')
      → (n i : ℕ) (s : S) {s' : S} → P s
      → for_range? n i body s ≡ some s'
      → P s'
  unfolding for_range?
  for_range?_keep body keep zero i s p e = subst P (some-injective s _ e) p
  for_range?_keep body keep (suc n) i s p e =
      let (t, q, r) = >>=_inv (body i s) (for_range? n (i + 1) body) e in
      for_range?_keep body keep n (i + 1) t (keep i s t p q) r

  -- A loop whose rounds all have a result has one.
  pub for_range?_total :
      (body : ℕ → S → Option S)
      → ((i : ℕ) (s : S) → P s → (s' : S) × (body i s ≡ some s') × P s')
      → (n i : ℕ) (s : S) → P s
      → (s' : S) × (for_range? n i body s ≡ some s') × P s'
  unfolding for_range?
  for_range?_total body go zero i s p = (s, refl, p)
  for_range?_total body go (suc n) i s p =
      let (t, e, q) = go i s p in
      let (u, e', r) = for_range?_total body go n (i + 1) t q in (u, rw e e', r)

  -- A rule for the rounds below a bound.
  pub for_range_within :
      (body : ℕ → S → S) (m : ℕ)
      → ((k : ℕ) (t : S) → k < m → P t → P (body k t))
      → (n i : ℕ) (s : S) → i + n ≤ m
      → P s
      → P (for_range n i body s)
  unfolding for_range
  for_range_within body m keep zero i s h p = p
  for_range_within body m keep (suc n) i s h p =
      for_range_within body m keep n (i + 1) (body i s) (omega arith) (keep i s (omega arith) p)
