-- ===== src/Channel/Windows/Spacing.antt =====
-- The window of a rank against the history of its activations (src/channel_state.cc).
use latest_zsim_dramsim.Prelude.{
  ℕ, ◌+◌, ◌^◌, ◌≤◌, ◌<◌, ◌≡◌, refl, sym, ap, ◌∙◌, subst, inl, inr, true, List, [], ◌∷◌, ◌++◌, map,
  some, arith, length, length-append, length-map, get_elem?, All, All-append, All-append_inv,
  All-get_elem?, get_elem?-length, get_elem?-append_left, get_elem?-append_right, Bool-cases, leb,
}
use mathlib.Core.Option.{some-injective}
use native.Mathlib.Decide.{dec_lt}
use mathlib.Core.List.{append_assoc, map-append}
use latest_zsim_dramsim.Common.{u64}
use latest_zsim_dramsim.Channel.Windows.{is_window_ready, push_window}

-- A window is the last activations, each with the end of its span; what has left it is over at the
-- time of the last activation.
pub record Covers (size delay : ℕ) (history window : List ℕ) : Type 0 where
  pub old : List ℕ
  pub recent : List ℕ
  pub parts : history ≡ old ++ recent
  pub spans : window ≡ map (λ t. t + delay) recent
  pub fits : length recent ≤ size
  pub over : (now : ℕ) → All (λ t. t ≤ now) history → All (λ t. t + delay ≤ now) old

abbrev pub Spaced : ℕ → ℕ → List ℕ → Type 0
Spaced size delay history =
    (i t t' : ℕ)
    → get_elem? history i ≡ some t
    → get_elem? history (i + size) ≡ some t'
    → t + delay ≤ t'

module _ (size delay : ℕ) where
  pub Covers-nil : Covers size delay [] []
  Covers-nil = record {
    old = [];
    recent = [];
    parts = refl;
    spans = refl;
    fits = omega arith;
    over = λ _ _. tt;
  }

  -- One more activation, behind a window that has room.
  cover_now :
      (history old recent window : List ℕ) (now : ℕ)
      → history ≡ old ++ recent
      → window ≡ map (λ t. t + delay) recent
      → length recent < size
      → ((later : ℕ)
          → All (λ t. t ≤ later) history
          → now ≤ later
          → All (λ t. t + delay ≤ later) old)
      → now + delay < 2 ^ 64
      → Covers size delay (history ++ now ∷ []) (window ++ u64 (now + delay) ∷ [])
  cover_now history old recent window now e w f o b = record {
    old = old;
    recent = recent ++ now ∷ [];
    parts = rw (e, append_assoc);
    spans = rw (w, map-append) (ap (λ x. map (λ t. t + delay) recent ++ x ∷ []) (omega arith));
    fits = omega (arith, length-append {0} recent (now ∷ []));
    over = λ later m.
        let (m1, m2) = All-append_inv (λ t. t ≤ later) history (now ∷ []) m in o later m1 m2.0;
  }

  push_step :
      (history old recent : List ℕ) (now : ℕ)
      → 0 < size
      → history ≡ old ++ recent
      → length recent ≤ size
      → ((later : ℕ) → All (λ t. t ≤ later) history → All (λ t. t + delay ≤ later) old)
      → now + delay < 2 ^ 64
      → is_window_ready size (map (λ t. t + delay) recent) now ≡ true
      → Covers size delay
          (history ++ now ∷ [])
          (push_window (map (λ t. t + delay) recent) delay now)
  unfolding is_window_ready push_window
  push_step history old [] now pos e f o b r =
      cover_now history old [] [] now e refl pos (λ later m _. o later m) b
  push_step history old (t ∷ recent) now pos e f o b r = elim (Bool-cases (leb (t + delay) now)) [
    | inl past ↦ rw past (
        cover_now history (old ++ t ∷ []) recent (map (λ t'. t' + delay) recent) now
          (e ∙ sym (append_assoc old (t ∷ []) recent)) refl f
          (λ later m n.
            All-append (λ t'. t' + delay ≤ later) old (t ∷ []) (o later m) (ground arith, tt))
          b)
    | inr waits ↦ rw waits (
        cover_now history old (t ∷ recent) ((t + delay) ∷ map (λ t'. t' + delay) recent) now e refl
          (ground (arith, length-map recent (λ t'. t' + delay))) (λ later m _. o later m) b)
  ]

  -- An activation that the window lets through keeps the window true to the history.
  pub push_window-Covers :
      {history window : List ℕ} (now : ℕ)
      → 0 < size
      → Covers size delay history window
      → now + delay < 2 ^ 64
      → is_window_ready size window now ≡ true
      → Covers size delay (history ++ now ∷ []) (push_window window delay now)
  push_window-Covers {history} {window} now pos c b r = rw c.spans (
      push_step history c.old c.recent now pos c.parts c.fits c.over b
        (subst (λ w. is_window_ready size w now ≡ true) c.spans r))

  -- It comes late enough after the activation that stands `size` places before it.
  from_old :
      (old recent : List ℕ) (i t now : ℕ)
      → All (λ t'. t' + delay ≤ now) old
      → i < length old
      → get_elem? (old ++ recent) i ≡ some t
      → t + delay ≤ now
  from_old old recent i t now o h g =
      All-get_elem? (λ t'. t' + delay ≤ now) old i o
        (sym (get_elem?-append_left old recent i h) ∙ g)

  from_front :
      (old recent : List ℕ) (u i t now : ℕ)
      → i ≡ length old
      → length (u ∷ recent) ≡ size
      → is_window_ready size (map (λ t'. t' + delay) (u ∷ recent)) now ≡ true
      → get_elem? (old ++ u ∷ recent) i ≡ some t
      → t + delay ≤ now
  unfolding is_window_ready
  from_front old recent u i t now e f r g =
      let first : u ≡ t =
        some-injective u t (sym (get_elem?-append_right old (u ∷ recent) 0 i (omega arith)) ∙ g) in
      ground (arith, length-map recent (λ t'. t' + delay))

  last_spaced :
      (old recent : List ℕ) (i t now : ℕ)
      → 0 < size
      → length recent ≤ size
      → All (λ t'. t' + delay ≤ now) old
      → is_window_ready size (map (λ t'. t' + delay) recent) now ≡ true
      → get_elem? (old ++ recent) i ≡ some t
      → i + size ≡ length (old ++ recent)
      → t + delay ≤ now
  last_spaced old [] i t now pos f o r g l =
      from_old old [] i t now o (omega (arith, length-append {0} old [])) g
  last_spaced old (u ∷ recent) i t now pos f o r g l = elim (dec_lt i (length old)) [
    | yes h ↦ from_old old (u ∷ recent) i t now o h g
    | no h ↦
        from_front old recent u i t now (omega (arith, length-append {0} old (u ∷ recent)))
          (omega (arith, length-append {0} old (u ∷ recent))) r g
  ]

  Spaced-step :
      (old recent : List ℕ) (i t t' now : ℕ)
      → 0 < size
      → length recent ≤ size
      → All (λ x. x + delay ≤ now) old
      → is_window_ready size (map (λ x. x + delay) recent) now ≡ true
      → Spaced size delay (old ++ recent)
      → get_elem? ((old ++ recent) ++ now ∷ []) i ≡ some t
      → get_elem? ((old ++ recent) ++ now ∷ []) (i + size) ≡ some t'
      → t + delay ≤ t'
  Spaced-step old recent i t t' now pos f o r sp g g' =
      elim (dec_lt (i + size) (length (old ++ recent))) [
        | yes h ↦
            sp i t t' (sym (get_elem?-append_left (old ++ recent) (now ∷ []) i (omega arith)) ∙ g)
              (sym (get_elem?-append_left (old ++ recent) (now ∷ []) (i + size) h) ∙ g')
        | no h ↦
            let end : i + size ≡ length (old ++ recent) = omega (
              arith,
              get_elem?-length ((old ++ recent) ++ now ∷ []) (i + size) g',
              length-append {0} (old ++ recent) (now ∷ []),
            ) in
            let same : now ≡ t' = some-injective now t' (
              sym (get_elem?-append_right (old ++ recent) (now ∷ []) 0 (i + size) (omega arith))
              ∙ g') in
            subst (λ x. t + delay ≤ x) same
              (last_spaced old recent i t now pos f o r
                (sym (get_elem?-append_left (old ++ recent) (now ∷ []) i (omega arith)) ∙ g) end)
      ]

  pub push_window-Spaced :
      {history window : List ℕ} (now : ℕ)
      → 0 < size
      → Covers size delay history window
      → All (λ t. t ≤ now) history
      → is_window_ready size window now ≡ true
      → Spaced size delay history
      → Spaced size delay (history ++ now ∷ [])
  push_window-Spaced {history} now pos c m r sp i t t' g g' =
      Spaced-step c.old c.recent i t t' now pos c.fits (c.over now m)
        (subst (λ w. is_window_ready size w now ≡ true) c.spans r)
        (subst (Spaced size delay) c.parts sp)
        (subst (λ h. get_elem? (h ++ now ∷ []) i ≡ some t) c.parts g)
        (subst (λ h. get_elem? (h ++ now ∷ []) (i + size) ≡ some t') c.parts g')
