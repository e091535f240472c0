-- ===== src/Refresh/Rotation.antt =====
-- The order of the bank-level refreshes (src/refresh.cc).
use latest_zsim_dramsim.Prelude.{
  ℕ, zero, suc, ◌+◌, ◌*◌, ◌%◌, ◌≤◌, ◌<◌, ◌≡◌, refl, sym, ◌∙◌, ap, false, ◌==◌, arith, ◌⊎◌, inl, inr,
  Option, some, ◌>>=◌,
}
use native.Mathlib.Nat.{suc-mul, mul-le-mul_right, mod-eq_of_lt, mod_self, mod-add-mod, mod-lt}
use native.Mathlib.Decide.{ℕ_discrete}
use latest_zsim_dramsim.Config.{Config, bank_level_staggered}
use latest_zsim_dramsim.Refresh.{Refresh, iterate_bank, iterate_next}

-- Two digits stay below the product of their bases.
digits_lt : (hi lo H L : ℕ) → hi < H → lo < L → hi * L + lo < H * L
digits_lt hi lo H L h l =
    let le : suc hi * L ≤ H * L = mul-le-mul_right L (omega arith) in omega (arith, suc-mul hi L)

-- The lower digit moves on.
low_digit :
    (hi lo H L : ℕ) → hi < H → lo + 1 < L → hi * L + (lo + 1) % L ≡ (hi * L + lo + 1) % (H * L)
low_digit hi lo H L h l =
    let below : hi * L + lo + 1 < H * L = omega (arith, digits_lt hi (lo + 1) H L h l) in
    rw (mod-eq_of_lt l, mod-eq_of_lt below) (omega arith)

-- The lower digit wraps, and the higher one moves on.
high_digit : (hi lo H L : ℕ) → hi < H → lo + 1 ≡ L → (hi + 1) % H * L ≡ (hi * L + lo + 1) % (H * L)
high_digit hi lo H L h l = elim (ℕ_discrete (hi + 1) H) [
  | yes e ↦
      let full : hi * L + lo + 1 ≡ H * L = omega (arith, suc-mul hi L, ap (λ x. x * L) e) in
      let wraps : (hi + 1) % H ≡ 0 = rw e (mod_self H) in
      rw (full, wraps, mod_self (H * L)) (omega arith)
  | no n ↦
      let more : hi + 1 < H = omega arith in
      let below : hi * L + lo + 1 < H * L =
        omega (arith, digits_lt (hi + 1) 0 H L more (omega arith), suc-mul hi L) in
      rw (mod-eq_of_lt more, mod-eq_of_lt below) (omega (arith, suc-mul hi L))
]

-- A counter that wraps moves on by one, or is at its end.
next_cases :
    (n m : ℕ) → n < m → ((n + 1 < m) × ((n + 1) % m ≡ suc n)) ⊎ ((n + 1 ≡ m) × ((n + 1) % m ≡ 0))
next_cases n m h = elim (ℕ_discrete (n + 1) m) [
  | yes e ↦ inr (e, rw e (mod_self m))
  | no k ↦ let l : n + 1 < m = omega arith in inl (l, mod-eq_of_lt l ∙ omega arith)
]

not_zero : (n : ℕ) → suc n == 0 ≡ false
not_zero n = ground arith

module _ (config : Config) where
  -- The counters name a bank of the configuration.
  pub record Turn (r : Refresh) : Type 0 where
    pub rank : r.next_rank < config.ranks
    pub bank : r.next_bank < config.banks_per_group
    pub bankgroup : r.next_bg < config.bankgroups

  abbrev pub total : ℕ
  total = config.ranks * config.banks_per_group * config.bankgroups

  -- The place of a bank in the order of the refreshes.
  abbrev pub turn : Refresh → ℕ
  turn r = (r.next_rank * config.banks_per_group + r.next_bank) * config.bankgroups + r.next_bg

  -- One step moves on to the next place.
  iterate_bank-turn : (r : Refresh) → Turn r → turn (iterate_bank config r) ≡ (turn r + 1) % total
  iterate_bank-turn r t =
      let mid = r.next_rank * config.banks_per_group + r.next_bank in
      let M = config.ranks * config.banks_per_group in
      let inside =
        digits_lt r.next_rank r.next_bank config.ranks config.banks_per_group t.rank t.bank in
      elim (next_cases r.next_bg config.bankgroups t.bankgroup) [
        | inl (l, e) ↦
            rw (e, not_zero r.next_bg)
              (rw e at (low_digit mid r.next_bg M config.bankgroups inside l))
        | inr (w, e) ↦
            let outer = high_digit mid r.next_bg M config.bankgroups inside w in
            elim (next_cases r.next_bank config.banks_per_group t.bank) [
              | inl (l, e') ↦
                  let inner = rw e' at (
                    low_digit r.next_rank r.next_bank config.ranks config.banks_per_group t.rank
                      l) in
                  rw (e, e', not_zero r.next_bank, inner) (omega (arith, outer))
              | inr (w', e') ↦
                  let inner =
                    high_digit r.next_rank r.next_bank config.ranks config.banks_per_group t.rank
                      w' in
                  rw (e, e', inner) (omega (arith, outer))
            ]
      ]

  iterate_bank-Turn : (r : Refresh) → Turn r → Turn (iterate_bank config r)
  iterate_bank-Turn r t = record {
    rank = ground (arith, t.rank, mod-lt (r.next_rank + 1) {m = config.ranks});
    bank = ground (arith, t.bank, mod-lt (r.next_bank + 1) {m = config.banks_per_group});
    bankgroup = ground (arith, t.bankgroup, mod-lt (r.next_bg + 1) {m = config.bankgroups});
  }

  -- The counters after a number of refreshes.
  abbrev pub iterate_times : ℕ → Refresh → Option Refresh
  iterate_times zero r = some r
  iterate_times (suc n) r = iterate_next config bank_level_staggered r >>= iterate_times n

  turn_lt : (r : Refresh) → Turn r → turn r < total
  turn_lt r t =
      digits_lt (r.next_rank * config.banks_per_group + r.next_bank) r.next_bg
        (config.ranks * config.banks_per_group) config.bankgroups
        (digits_lt r.next_rank r.next_bank config.ranks config.banks_per_group t.rank t.bank)
        t.bankgroup

  -- The bank-level refresh goes through all banks of all ranks in turn: `n` refreshes move on by `n`
  -- places in the order of the banks, and after the last bank comes the first one.
  pub rotation :
      (n : ℕ) (r : Refresh)
      → Turn r
      → (r' : Refresh) × (iterate_times n r ≡ some r') × Turn r' × (turn r' ≡ (turn r + n) % total)
  unfolding iterate_next
  rotation zero r t =
      let same : turn r + 0 ≡ turn r = omega arith in
      (r, refl, t, sym (ap (λ x. x % total) same ∙ mod-eq_of_lt (turn_lt r t)))
  rotation (suc n) r t =
      let next = iterate_bank config r in
      let (r', e, t', p) = rotation n next (iterate_bank-Turn r t) in
      let onward = ap (λ x. (x + n) % total) (iterate_bank-turn r t) in
      let sum : turn r + 1 + n ≡ turn r + suc n = omega arith in
      (r', e, t', p ∙ onward ∙ mod-add-mod (turn r + 1) total n ∙ ap (λ x. x % total) sum)
