-- ===== src/Hmc/Packets/Sizes.antt =====
-- The lengths of the packets (src/hmc.cc).
use latest_zsim_dramsim.Prelude.{
  ℕ, ◌+◌, ◌/◌, ◌≡◌, ◌≢◌, Bool, true, false, ◌==◌, Option, none, some, Option-cases, inl, inr, arith,
  if◌then◌else◌,
}
use latest_zsim_dramsim.Hmc.Packets
use latest_zsim_dramsim.Hmc.Packets.{ReqType, RespType, request_flits, response_form}

answer_there : (t : ReqType) {n : ℕ} → request_flits t ≡ some n → response_form t ≢ none
unfolding request_flits response_form
answer_there t e = ground arith

-- A request that can be made can be answered.
pub request_flits-response_form :
    (t : ReqType) {n : ℕ}
    → request_flits t ≡ some n
    → (form : RespType × ℕ) × (response_form t ≡ some form)
request_flits-response_form t e = elim (Option-cases (response_form t)) [
  | inl no_form ↦ absurd (answer_there t e no_form)
  | inr (form, e') ↦ (form, e')
]

-- What the packets of a request carry: the bytes of the request, those of the response, and whether it
-- is posted. The operations on the memory (`ADD8` to `SWAP16`) carry an operand of 16 bytes or less,
-- which takes a flit, but for the increments, which carry none.
pub data Carries : Type 0 where
  sized : (out back : ℕ) (posted : Bool) → Carries
  no_bytes : RespType → Carries
  no_packet : Carries

abbrev pub carries : ReqType → Carries
carries Packets.rd16 = sized 0 16 false
carries Packets.rd32 = sized 0 32 false
carries Packets.rd48 = sized 0 48 false
carries Packets.rd64 = sized 0 64 false
carries Packets.rd80 = sized 0 80 false
carries Packets.rd96 = sized 0 96 false
carries Packets.rd112 = sized 0 112 false
carries Packets.rd128 = sized 0 128 false
carries Packets.rd256 = sized 0 256 false
carries Packets.wr16 = sized 16 0 false
carries Packets.wr32 = sized 32 0 false
carries Packets.wr48 = sized 48 0 false
carries Packets.wr64 = sized 64 0 false
carries Packets.wr80 = sized 80 0 false
carries Packets.wr96 = sized 96 0 false
carries Packets.wr112 = sized 112 0 false
carries Packets.wr128 = sized 128 0 false
carries Packets.wr256 = sized 256 0 false
carries Packets.p_wr16 = sized 16 0 true
carries Packets.p_wr32 = sized 32 0 true
carries Packets.p_wr48 = sized 48 0 true
carries Packets.p_wr64 = sized 64 0 true
carries Packets.p_wr80 = sized 80 0 true
carries Packets.p_wr96 = sized 96 0 true
carries Packets.p_wr112 = sized 112 0 true
carries Packets.p_wr128 = sized 128 0 true
carries Packets.p_wr256 = sized 256 0 true
carries Packets.add8 = sized 16 0 false
carries Packets.add16 = sized 16 0 false
carries Packets.eq8 = sized 16 0 false
carries Packets.eq16 = sized 16 0 false
carries Packets.bwr = sized 16 0 false
carries Packets.p_2add8 = sized 16 0 true
carries Packets.p_add16 = sized 16 0 true
carries Packets.p_bwr = sized 16 0 true
carries Packets.inc8 = sized 0 0 false
carries Packets.p_inc8 = sized 0 0 true
carries Packets.rd0 = no_bytes Packets.rd_rs
carries Packets.wr0 = no_bytes Packets.wr_rs
carries Packets.size = no_packet
carries _ = sized 16 16 false

-- A packet has a flit for each 16 bytes, and one of header and tail.
abbrev packet : ℕ → ℕ
packet bytes = bytes / 16 + 1

abbrev pub request_size : Carries → Option ℕ
request_size (sized out back posted) = some (packet out)
request_size (no_bytes answer) = some 0
request_size no_packet = none

-- A response with no bytes to carry back is that of a write.
abbrev pub response_size : Carries → Option (RespType × ℕ)
response_size (sized out back true) = some (Packets.no_rs, 0)
response_size (sized out back false) =
    some (if back == 0 then (Packets.wr_rs, 1) else (Packets.rd_rs, packet back))
response_size (no_bytes answer) = some (answer, 0)
response_size no_packet = none

-- For every type of request, read, write or operation on the memory: a packet has a flit for each 16
-- bytes that it carries and one of header and tail, a posted request has a response of no flits, and any
-- other request has the response of a read exactly when bytes come back. There are two exceptions: `RD0`
-- and `WR0` have no flits, not even the one of header and tail, in either direction, and the type `SIZE`
-- has no packets.
pub request_flits-carries :
    (t : ReqType)
    → (request_flits t ≡ request_size (carries t)) × (response_form t ≡ response_size (carries t))
unfolding request_flits response_form
request_flits-carries t = ground arith
