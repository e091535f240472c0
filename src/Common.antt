-- ===== src/Common.antt =====
-- src/common.h: addresses, commands and transactions.
use latest_zsim_dramsim.Prelude.{
  ℕ, ◌≡◌, Bool, true, false, ◌||◌, ℤ, minus_one, ◌==◌, ◌%◌, ◌^◌, arith, not,
}

pub record Address : Type 0 where
  pub channel : ℤ
  pub rank : ℤ
  pub bankgroup : ℤ
  pub bank : ℤ
  pub row : ℤ
  pub column : ℤ

abbrev pub no_address : Address
no_address = record {
  channel = minus_one;
  rank = minus_one;
  bankgroup = minus_one;
  bank = minus_one;
  row = minus_one;
  column = minus_one;
}

pub data CommandType : Type 0 where
  read read_precharge write write_precharge activate precharge refresh_bank refresh : CommandType
  sref_enter sref_exit size : CommandType

pub CommandType-discrete : Discrete CommandType
CommandType-discrete = hlevel

-- `static_cast<int>` of a command type.
abbrev pub to_int : CommandType → ℕ
to_int read = 0
to_int read_precharge = 1
to_int write = 2
to_int write_precharge = 3
to_int activate = 4
to_int precharge = 5
to_int refresh_bank = 6
to_int refresh = 7
to_int sref_enter = 8
to_int sref_exit = 9
to_int size = 10

abbrev pub same_type : CommandType → CommandType → Bool
same_type a b = to_int a == to_int b

pub record Command : Type 0 where
  pub cmd_type : CommandType
  pub addr : Address
  pub open addr use {rank, bankgroup, bank, row, column}
  pub hex_addr : ℕ

-- `Command()`: the invalid command.
abbrev pub no_command : Command
no_command = record { cmd_type = size; addr = no_address; hex_addr = 0 }

abbrev pub size_type : CommandType → Bool
size_type size = true
size_type _ = false

abbrev pub refresh_type : CommandType → Bool
refresh_type refresh = true
refresh_type refresh_bank = true
refresh_type _ = false

abbrev pub read_type : CommandType → Bool
read_type read = true
read_type read_precharge = true
read_type _ = false

abbrev pub write_type : CommandType → Bool
write_type write = true
write_type write_precharge = true
write_type _ = false

abbrev pub rank_type : CommandType → Bool
rank_type refresh = true
rank_type sref_enter = true
rank_type sref_exit = true
rank_type _ = false

abbrev pub is_valid : Command → Bool
is_valid c = not (size_type c.cmd_type)

abbrev pub is_refresh : Command → Bool
is_refresh c = refresh_type c.cmd_type

abbrev pub is_read : Command → Bool
is_read c = read_type c.cmd_type

abbrev pub is_write : Command → Bool
is_write c = write_type c.cmd_type

abbrev pub is_read_write : Command → Bool
is_read_write c = is_read c || is_write c

abbrev pub is_rank_cmd : Command → Bool
is_rank_cmd c = rank_type c.cmd_type

pub record Transaction : Type 0 where
  pub addr : ℕ
  pub added_cycle : ℕ
  pub complete_cycle : ℕ
  pub is_write : Bool

-- `Transaction(addr, is_write)`
abbrev pub new_transaction : ℕ → Bool → Transaction
new_transaction addr is_write = record {
  addr = addr;
  added_cycle = 0;
  complete_cycle = 0;
  is_write = is_write;
}

-- A uint64_t wraps at 2^64.
abbrev pub u64 : ℕ → ℕ
u64 n = n % 2 ^ 64

-- Two command types with one number are one.
pub same_type→eq : (a b : CommandType) → same_type a b ≡ true → a ≡ b
same_type→eq a b h = ground arith

pub same_type_refl : (a : CommandType) → same_type a a ≡ true
same_type_refl a = ground arith
