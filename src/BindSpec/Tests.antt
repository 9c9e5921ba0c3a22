-- ===== src/BindSpec/Tests.antt =====
-- A retained client on port 443: the words of BindSpec, and the theorems applied.
use orbit.Base.{◌≡◌, refl, true, none, some, arith, ◌↔◌, ◌+◌, ◌^◌}
use orbit.BindSpec.{client_retain, server_retain, pack, unpack, is_server, is_retain}
use orbit.BindSpec.Pack.{in_range, unpack_iff}

unpack_iff_example : (unpack 0x7F_0000_0101_BB02 ≡ some (client_retain 0x7F00_0001 443)) ↔ (
    (in_range (client_retain 0x7F00_0001 443) ≡ true)
    × (pack (client_retain 0x7F00_0001 443) ≡ 0x7F_0000_0101_BB02))
unpack_iff_example = unpack_iff 0x7F_0000_0101_BB02 (client_retain 0x7F00_0001 443) (omega arith)

-- Port 0, an address for a server, and a reserved bit.
refused : (unpack 1 ≡ none) × (unpack 0x100_5004 ≡ none) × (unpack (2 ^ 56 + 0x5004) ≡ none)
unfolding unpack
refused = (refl, refl, refl)

kinds : (is_server (server_retain 80) ≡ true) × (is_retain (client_retain 1 80) ≡ true)
unfolding is_server is_retain
kinds = (refl, refl)
