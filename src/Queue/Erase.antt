-- ===== src/Queue/Erase.antt =====
-- `EraseRWCommand` of src/command_queue.cc: what leaves the queue.
use latest_zsim_dramsim.Prelude.{
  ◌≡◌, refl, ap, true, false, ◌&&◌, ◌==◌, Bool, Bool-cases, List, [], ◌∷◌, ◌++◌, some, none, ◌⊎◌,
  inl, inr, All, arith, >>=_inv, length, ◌≤◌,
}
use mathlib.Core.Option.{some-injective}
use latest_zsim_dramsim.Common.{Command, same_type}
use latest_zsim_dramsim.Queue.{erase_from}

-- The test of the loop: one address and one type.
abbrev pub matches : Command → Command → Bool
matches cmd c = (cmd.hex_addr == c.hex_addr) && same_type cmd.cmd_type c.cmd_type

-- A list with one command taken out, the first that matches.
pub record Erased (cmd : Command) (cs rest : List Command) : Type 0 where
  pub before : List Command
  pub taken : Command
  pub after : List Command
  pub whole : cs ≡ before ++ taken ∷ after
  pub left : rest ≡ before ++ after
  pub hit : matches cmd taken ≡ true
  pub first : All (λ c. matches cmd c ≡ false) before

-- `EraseRWCommand` either takes out the first command of the queue that has the type and address
-- given, and keeps the others in their order, or there is none, and only then it exits.
pub erase_from-cases :
    (cmd : Command) (cs : List Command)
    → ((erase_from cmd cs ≡ none) × All (λ c. matches cmd c ≡ false) cs)
      ⊎ ((rest : List Command) × (erase_from cmd cs ≡ some rest) × Erased cmd cs rest)
unfolding erase_from
erase_from-cases cmd [] = inl (refl, tt)
erase_from-cases cmd (c ∷ cs) = elim (Bool-cases (matches cmd c)) [
  | inl y ↦ inr (
    cs,
    rw y refl,
    record { before = []; taken = c; after = cs; whole = refl; left = refl; hit = y; first = tt },
  )
  | inr n ↦ elim (erase_from-cases cmd cs) [
    | inl (e, all) ↦ inl (rw (n, e) refl, (n, all))
    | inr (rest, e, out) ↦ inr (
      c ∷ rest,
      rw (n, e) refl,
      record {
        before = c ∷ out.before;
        taken = out.taken;
        after = out.after;
        whole = ap (λ l. c ∷ l) out.whole;
        left = ap (λ l. c ∷ l) out.left;
        hit = out.hit;
        first = (n, out.first);
      },
    )
  ]
]

pub erase_from-length :
    (cmd : Command) (cs : List Command) {rest : List Command}
    → erase_from cmd cs ≡ some rest
    → length rest ≤ length cs
unfolding erase_from
erase_from-length cmd [] e = cc
erase_from-length cmd (c ∷ cs) {rest} e = elim (Bool-cases (matches cmd c)) [
  | inl y ↦ rw (← some-injective cs rest (rw y at e)) (omega arith)
  | inr n ↦
      let (r, e1, e2) = >>=_inv (erase_from cmd cs) _ (rw n at e) in
      rw (← some-injective _ rest e2) (omega (arith, erase_from-length cmd cs e1))
]
