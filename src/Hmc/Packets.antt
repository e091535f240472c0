-- ===== src/Hmc/Packets.antt =====
-- src/hmc.h and the constructors of src/hmc.cc: the packets between the links and the vaults. A field
-- that a constructor does not set is 0 here.
pub mod Sizes
use latest_zsim_dramsim.Prelude.{ℕ, ◌+◌, ◌%◌, Bool, true, false, Option, none, some, ◌>>=◌, ◌==◌}

-- `HMCReqType`
pub data ReqType : Type 0 where
  rd0 rd16 rd32 rd48 rd64 rd80 rd96 rd112 rd128 rd256 : ReqType
  wr0 wr16 wr32 wr48 wr64 wr80 wr96 wr112 wr128 wr256 : ReqType
  p_wr16 p_wr32 p_wr48 p_wr64 p_wr80 p_wr96 p_wr112 p_wr128 p_wr256 : ReqType
  add8 add16 p_2add8 p_add16 adds8r adds16r inc8 p_inc8 : ReqType
  xor16 or16 nor16 and16 nand16 : ReqType
  casgt8 casgt16 caslt8 caslt16 caseq8 caszero16 : ReqType
  eq8 eq16 bwr p_bwr bwr8r swap16 : ReqType
  size : ReqType

-- `HMCRespType`
pub data RespType : Type 0 where
  no_rs rd_rs wr_rs err_rs size_rs : RespType

-- `type >= WR0 && type <= P_WR256`
unfoldable pub is_write_type : ReqType → Bool
is_write_type wr0 = true
is_write_type wr16 = true
is_write_type wr32 = true
is_write_type wr48 = true
is_write_type wr64 = true
is_write_type wr80 = true
is_write_type wr96 = true
is_write_type wr112 = true
is_write_type wr128 = true
is_write_type wr256 = true
is_write_type p_wr16 = true
is_write_type p_wr32 = true
is_write_type p_wr48 = true
is_write_type p_wr64 = true
is_write_type p_wr80 = true
is_write_type p_wr96 = true
is_write_type p_wr112 = true
is_write_type p_wr128 = true
is_write_type p_wr256 = true
is_write_type _ = false

-- The flits of a request; `size` ends the process.
unfoldable pub request_flits : ReqType → Option ℕ
request_flits rd0 = some 0
request_flits wr0 = some 0
request_flits rd16 = some 1
request_flits rd32 = some 1
request_flits rd48 = some 1
request_flits rd64 = some 1
request_flits rd80 = some 1
request_flits rd96 = some 1
request_flits rd112 = some 1
request_flits rd128 = some 1
request_flits rd256 = some 1
request_flits wr16 = some 2
request_flits p_wr16 = some 2
request_flits wr32 = some 3
request_flits p_wr32 = some 3
request_flits wr48 = some 4
request_flits p_wr48 = some 4
request_flits wr64 = some 5
request_flits p_wr64 = some 5
request_flits wr80 = some 6
request_flits p_wr80 = some 6
request_flits wr96 = some 7
request_flits p_wr96 = some 7
request_flits wr112 = some 8
request_flits p_wr112 = some 8
request_flits wr128 = some 9
request_flits p_wr128 = some 9
request_flits wr256 = some 17
request_flits p_wr256 = some 17
request_flits inc8 = some 1
request_flits p_inc8 = some 1
request_flits size = none
request_flits _ = some 2

-- The type and the flits of the response to a request.
unfoldable pub response_form : ReqType → Option (RespType × ℕ)
response_form rd0 = some (rd_rs, 0)
response_form rd16 = some (rd_rs, 2)
response_form rd32 = some (rd_rs, 3)
response_form rd48 = some (rd_rs, 4)
response_form rd64 = some (rd_rs, 5)
response_form rd80 = some (rd_rs, 6)
response_form rd96 = some (rd_rs, 7)
response_form rd112 = some (rd_rs, 8)
response_form rd128 = some (rd_rs, 9)
response_form rd256 = some (rd_rs, 17)
response_form wr0 = some (wr_rs, 0)
response_form wr16 = some (wr_rs, 1)
response_form wr32 = some (wr_rs, 1)
response_form wr48 = some (wr_rs, 1)
response_form wr64 = some (wr_rs, 1)
response_form wr80 = some (wr_rs, 1)
response_form wr96 = some (wr_rs, 1)
response_form wr112 = some (wr_rs, 1)
response_form wr128 = some (wr_rs, 1)
response_form wr256 = some (wr_rs, 1)
response_form p_wr16 = some (no_rs, 0)
response_form p_wr32 = some (no_rs, 0)
response_form p_wr48 = some (no_rs, 0)
response_form p_wr64 = some (no_rs, 0)
response_form p_wr80 = some (no_rs, 0)
response_form p_wr96 = some (no_rs, 0)
response_form p_wr112 = some (no_rs, 0)
response_form p_wr128 = some (no_rs, 0)
response_form p_wr256 = some (no_rs, 0)
response_form add8 = some (wr_rs, 1)
response_form add16 = some (wr_rs, 1)
response_form p_2add8 = some (no_rs, 0)
response_form p_add16 = some (no_rs, 0)
response_form adds8r = some (rd_rs, 2)
response_form adds16r = some (rd_rs, 2)
response_form inc8 = some (wr_rs, 1)
response_form p_inc8 = some (no_rs, 0)
response_form eq8 = some (wr_rs, 1)
response_form eq16 = some (wr_rs, 1)
response_form bwr = some (wr_rs, 1)
response_form p_bwr = some (no_rs, 0)
response_form size = none
response_form _ = some (rd_rs, 2)

-- `HMCRequest`
pub record Request : Type 0 where
  pub req_type : ReqType
  pub mem_operand : ℕ
  pub link : ℕ
  pub quad : ℕ
  pub vault : ℕ
  pub flits : ℕ
  pub is_write : Bool
  pub exit_time : ℕ

-- `HMCRequest::HMCRequest`
unfoldable pub new_request : ReqType → ℕ → ℕ → Option Request
unfolding request_flits is_write_type
new_request req_type hex_addr vault = do
  n ← request_flits req_type
  some (record {
    req_type = req_type;
    mem_operand = hex_addr;
    link = 0;
    quad = vault % 4;
    vault = vault;
    flits = n;
    is_write = is_write_type req_type;
    exit_time = 0;
  })

-- `HMCResponse`
pub record Response : Type 0 where
  pub resp_id : ℕ
  pub resp_type : RespType
  pub link : ℕ
  pub quad : ℕ
  pub flits : ℕ
  pub exit_time : ℕ

-- `HMCResponse::HMCResponse`
unfoldable pub new_response : ℕ → ReqType → ℕ → ℕ → Option Response
unfolding response_form
new_response id req_type dest_link src_quad = do
  (t, n) ← response_form req_type
  some (record {
    resp_id = id;
    resp_type = t;
    link = dest_link;
    quad = src_quad;
    flits = n;
    exit_time = 0;
  })
