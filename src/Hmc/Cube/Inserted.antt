-- ===== src/Hmc/Cube/Inserted.antt =====
-- The round robin of `InsertHMCReq` over the links (src/hmc.cc).
use latest_zsim_dramsim.Prelude.{
  ℕ, zero, suc, ◌+◌, ◌-◌, ◌%◌, ◌≤◌, ◌<◌, ◌≡◌, ◌≢◌, refl, ap, sym, ◌∙◌, subst, ltb, ◌==◌, Bool, true,
  false, Bool-cases, ◌⊎◌, inl, inr, Option, some, arith,
}
use native.Mathlib.Decide.{ℕ_discrete}
use native.Mathlib.Nat.{mod-eq_of_lt, mod-eq-sub-mod, mod-lt, mod-add-mod, add-mod_right}
use latest_zsim_dramsim.Hmc.Packets.{RespType, Request, Response, response_form, new_response}
use latest_zsim_dramsim.Hmc.Crossbar.Ages.{turn_of, turn_of-position, turn_of-lt}
use latest_zsim_dramsim.Hmc.Cube.{
  Cube, has_room, some_room, cube_will_accept, place, iterate_next_link, insert_req_to_link,
  insert_round, insert_hmc_req,
}

-- A later place of the round robin is another one.
not_back : (start links u : ℕ) → start < links → 0 < u → u < links → (u + start) % links ≢ start
not_back start links u h p q e = elim (Bool-cases (ltb (u + start) links)) [
  | inl y ↦
      let l : u + start < links = ground arith in
      let e' : u + start ≡ start = sym (mod-eq_of_lt l) ∙ e in absurd (omega (arith, e'))
  | inr n ↦
      let l : links ≤ u + start = ground arith in
      let below : u + start - links < links = omega arith in
      let e' : u + start - links ≡ start = sym (mod-eq-sub-mod l ∙ mod-eq_of_lt below) ∙ e in
      absurd (omega (arith, e'))
]

module _ (req : Request) {form : RespType × ℕ} (known : response_form req.req_type ≡ some form)
    (s : Cube) where
  -- The response to the request at a link.
  abbrev pub answer : ℕ → Response
  answer link = record {
    resp_id = req.mem_operand;
    resp_type = form.0;
    link = link;
    quad = req.quad;
    flits = form.1;
    exit_time = 0;
  }

  -- The request has been put at a link, and the next one is at the turn.
  abbrev pub settled : ℕ → Cube
  settled link = record (place req (answer link) link s) { next_link = (link + 1) % s.links }

  abbrev after : ℕ → Cube
  after u = record s { next_link = (u + s.next_link) % s.links }

  full_link :
      (u : ℕ)
      → (u + s.next_link) % s.links < s.links
      → has_room s ((u + s.next_link) % s.links) ≡ false
      → insert_req_to_link req ((u + s.next_link) % s.links) (after u) ≡ some (false, after u)
  unfolding insert_req_to_link
  full_link u l h =
      let inside : ltb ((u + s.next_link) % s.links) s.links ≡ true = ground arith in
      rw (inside, h) refl

  room_link :
      (u : ℕ)
      → (u + s.next_link) % s.links < s.links
      → has_room s ((u + s.next_link) % s.links) ≡ true
      → insert_req_to_link req ((u + s.next_link) % s.links) (after u)
        ≡ some (
          true,
          place req (answer ((u + s.next_link) % s.links)) ((u + s.next_link) % s.links) (after u),
        )
  unfolding insert_req_to_link new_response
  room_link u l h =
      let inside : ltb ((u + s.next_link) % s.links) s.links ≡ true = ground arith in
      rw (inside, h, known) refl

  -- The next link's turn, or the end of the loop.
  abbrev pub Outcome : Option (Bool × Cube) → Type 0
  Outcome r =
      ((link : ℕ) × (link < s.links) × (has_room s link ≡ true) × (r ≡ some (true, settled link)))
      ⊎ (((link : ℕ) → link < s.links → has_room s link ≡ false) × (r ≡ some (false, s)))

  turn_on : (u : ℕ) → iterate_next_link (after u) ≡ after (u + 1)
  turn_on u =
      let e : ((u + s.next_link) % s.links + 1) % s.links ≡ (u + 1 + s.next_link) % s.links =
        mod-add-mod (u + s.next_link) s.links 1 ∙ ap (λ x. x % s.links) (omega arith) in
      ap (λ x. record s { next_link = x }) e

  all_full :
      s.next_link < s.links
      → ((v : ℕ) → v < s.links → has_room s ((v + s.next_link) % s.links) ≡ false)
      → (link : ℕ) → link < s.links
      → has_room s link ≡ false
  all_full h full link l =
      let p = turn_of-position s.links s.next_link link (λ i. 0) h l _ refl in
      let t = turn_of-lt s.links s.next_link link (λ i. 0) h l in
      subst (λ x. has_room s x ≡ false) p (full (turn_of s.links s.next_link link (λ i. 0) h l) t)

  up_to :
      (u : ℕ)
      → ((v : ℕ) → v < u → has_room s ((v + s.next_link) % s.links) ≡ false)
      → has_room s ((u + s.next_link) % s.links) ≡ false
      → (v : ℕ) → v < u + 1
      → has_room s ((v + s.next_link) % s.links) ≡ false
  up_to u full here v l = elim (ℕ_discrete v u) [ yes e ↦ rw e here | no n ↦ full v (omega arith) ]

  round_trip :
      (u : ℕ) → s.next_link < s.links → u ≡ s.links → (u + s.next_link) % s.links ≡ s.next_link
  round_trip u h e =
      let e' : u + s.next_link ≡ s.next_link + s.links = omega arith in
      rw e' (add-mod_right s.next_link s.links ∙ mod-eq_of_lt h)

  insert_round-Outcome :
      (fuel u : ℕ)
      → s.next_link < s.links
      → 0 < u
      → u ≤ s.links
      → s.links < fuel + u
      → ((v : ℕ) → v < u → has_room s ((v + s.next_link) % s.links) ≡ false)
      → Outcome (insert_round fuel s.next_link req (after u))
  unfolding insert_round
  insert_round-Outcome zero u h p q f full = absurd (omega arith)
  insert_round-Outcome (suc fuel) u h p q f full = elim (Bool-cases (ltb u s.links)) [
    | inl y ↦
        let other = not_back s.next_link s.links u h p (ground arith) in
        let go : (s.next_link == (u + s.next_link) % s.links) ≡ false = ground (arith, other) in
        let inside : (u + s.next_link) % s.links < s.links =
          mod-lt (u + s.next_link) (omega arith) in
        elim (Bool-cases (has_room s ((u + s.next_link) % s.links))) [
          | inl room ↦
              inl ((u + s.next_link) % s.links, inside, room, rw (go, room_link u inside room) refl)
          | inr none_here ↦
              rw (go, full_link u inside none_here, turn_on u)
                (insert_round-Outcome fuel (u + 1) h (omega arith) (ground arith) (omega arith)
                  (λ v l. up_to u full none_here v l))
        ]
    | inr n ↦
        let back : (u + s.next_link) % s.links ≡ s.next_link = round_trip u h (ground arith) in
        let here : (s.next_link == s.next_link) ≡ true = ground arith in
        let every : (v : ℕ) → v < s.links → has_room s ((v + s.next_link) % s.links) ≡ false =
          λ v l. full v (ground arith) in
        rw (back, here) (inr (all_full h every, refl))
  ]

  -- `InsertHMCReq` ends: it puts the request and its response at a link with room, the turn going on to
  -- the next link, or, exactly when no link has room, leaves everything as it is.
  pub insert_hmc_req-Outcome : s.next_link < s.links → Outcome (insert_hmc_req req s)
  unfolding insert_hmc_req
  insert_hmc_req-Outcome h =
      let nothing : 0 + s.next_link ≡ s.next_link = omega arith in
      let zero_turn : (0 + s.next_link) % s.links ≡ s.next_link = rw nothing (mod-eq_of_lt h) in
      let inside : (0 + s.next_link) % s.links < s.links = rw zero_turn h in
      elim (Bool-cases (has_room s s.next_link)) [
        | inl room ↦
            let first = rw zero_turn at (room_link 0 inside (rw zero_turn room)) in
            inl (s.next_link, h, room, rw first refl)
        | inr none_here ↦
            let first = rw zero_turn at (full_link 0 inside (rw zero_turn none_here)) in
            let turn : iterate_next_link s ≡ after 1 = rw zero_turn at (turn_on 0) in
            let only : (v : ℕ) → v < 1 → has_room s ((v + s.next_link) % s.links) ≡ false = λ v l.
              up_to 0 (λ v l. absurd (omega arith)) (rw zero_turn none_here) v (omega arith) in
            rw (first, turn)
              (insert_round-Outcome s.links 1 h (omega arith) (omega arith) (omega arith) only)
      ]

some_room-here :
    (rounds i link : ℕ) (s : Cube)
    → i ≤ link
    → link < i + rounds
    → has_room s link ≡ true
    → some_room rounds i s ≡ true
unfolding some_room
some_room-here zero i link s p q h = absurd (omega arith)
some_room-here (suc rounds) i link s p q h = elim (ℕ_discrete i link) [
  | yes e ↦ let h' : has_room s i ≡ true = rw e h in rw h' refl
  | no n ↦
      let rest = some_room-here rounds (i + 1) link s (omega arith) (omega arith) h in
      elim (Bool-cases (has_room s i)) [ inl y ↦ rw y refl | inr f ↦ rw f rest ]
]

some_room-nowhere :
    (rounds i : ℕ) (s : Cube)
    → ((link : ℕ) → link < i + rounds → has_room s link ≡ false)
    → some_room rounds i s ≡ false
unfolding some_room
some_room-nowhere zero i s h = refl
some_room-nowhere (suc rounds) i s h =
    rw (h i (omega arith)) (some_room-nowhere rounds (i + 1) s (λ l p. h l (omega arith)))

-- For a request of any type but `SIZE`, `InsertHMCReq` ends, and answers what `WillAcceptTransaction`
-- said before it.
pub insert_hmc_req-will_accept :
    (req : Request) {form : RespType × ℕ} (s : Cube)
    → response_form req.req_type ≡ some form
    → s.next_link < s.links
    → (s' : Cube) × (insert_hmc_req req s ≡ some (cube_will_accept s, s'))
unfolding cube_will_accept
insert_hmc_req-will_accept req {form} s known h = elim (insert_hmc_req-Outcome req known s h) [
  | inl (link, l, room, e) ↦ (
    settled req known s link,
    rw (some_room-here s.links 0 link s (omega arith) (omega arith) room) e,
  )
  | inr (full, e) ↦ (s, rw (some_room-nowhere s.links 0 s (λ link l. full link (omega arith))) e)
]
