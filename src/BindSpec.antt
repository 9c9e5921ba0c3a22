-- ===== src/BindSpec.antt =====
-- `BindSpec` of net_channel/src/lib.rs: how a channel is bound, and its packing into a register.
pub mod Pack
mod Tests
use orbit.Base.{
  ℕ, ◌+◌, ◌*◌, ◌/◌, ◌%◌, ◌^◌, Bool, true, false, not, ◌==◌, if◌then◌else◌, Option, none, some,
  bit_or,
}

pub data BindSpec : Type 0 where
  client_one_shot : (addr port : ℕ) → BindSpec
  client_retain : (addr port : ℕ) → BindSpec
  server_one_shot : (port : ℕ) → BindSpec
  server_retain : (port : ℕ) → BindSpec

-- `1 | (port << 8) | (addr << 24)`, with the shifts on `usize`.
unfoldable pub pack : BindSpec → ℕ
pack (client_one_shot addr port) =
    bit_or (bit_or 1 (port * 2 ^ 8 % 2 ^ 64)) (addr * 2 ^ 24 % 2 ^ 64)
pack (client_retain addr port) = bit_or (bit_or 2 (port * 2 ^ 8 % 2 ^ 64)) (addr * 2 ^ 24 % 2 ^ 64)
pack (server_one_shot port) = bit_or 3 (port * 2 ^ 8 % 2 ^ 64)
pack (server_retain port) = bit_or 4 (port * 2 ^ 8 % 2 ^ 64)

-- The masks below a power of two are remainders.
abbrev by_mode : ℕ → ℕ → ℕ → Option BindSpec
by_mode mode addr port =
    if mode == 1
    then some (client_one_shot addr port)
    else if mode == 2
    then some (client_retain addr port)
    else if mode == 3
    then if addr == 0 then some (server_one_shot port) else none
    else if mode == 4
    then if addr == 0 then some (server_retain port) else none
    else none

unfoldable pub unpack : ℕ → Option BindSpec
unpack packed =
    if not (packed / 2 ^ 56 == 0)
    then none
    else if packed / 2 ^ 8 % 2 ^ 16 == 0
    then none
    else by_mode (packed % 2 ^ 8) (packed / 2 ^ 24 % 2 ^ 32) (packed / 2 ^ 8 % 2 ^ 16)

unfoldable pub is_server : BindSpec → Bool
is_server (server_one_shot port) = true
is_server (server_retain port) = true
is_server (client_one_shot addr port) = false
is_server (client_retain addr port) = false

unfoldable pub is_retain : BindSpec → Bool
is_retain (client_retain addr port) = true
is_retain (server_retain port) = true
is_retain (client_one_shot addr port) = false
is_retain (server_one_shot port) = false
