-- ===== src/Hdlc/Address/Server.antt =====
-- `DlmsHdlcAddress`: the addresses of clients and of logical and physical devices.
use dlms.Prelude.{
  ℕ, ◌+◌, ◌*◌, ◌≤◌, ◌<◌, ◌≡◌, ◌⊎◌, ◌&&◌, arith, leb, ◌==◌, if◌then◌else◌, done, fail,
}
use dlms.Hdlc.Types.{invalid_address, HdlcAddress}
use dlms.Hdlc.Address.{from_raw, make_server_address}
use dlms.Hdlc.Address.Laws.{IsAddress, from_raw-IsAddress, maximum_raw_value-at}

-- The address of a pair: one group if the physical device is 0 and the logical one fits, two groups
-- if both fit one, four groups otherwise.
unfoldable pub server_address : ℕ → ℕ → HdlcAddress
server_address logical physical =
    if physical == 0 && leb logical 0x7f
    then record { raw_value = logical; encoded_size = 1 }
    else if leb logical 0x7f && leb physical 0x7f
    then record { raw_value = logical * 128 + physical; encoded_size = 2 }
    else record { raw_value = logical * 16384 + physical; encoded_size = 4 }

-- `MakeServerAddress` builds the address of every pair of 14-bit numbers, a valid HDLC address, and
-- answers InvalidAddress for any other pair, for which the header announces UnsupportedAddress.
pub make_server_address-total :
    (logical physical : ℕ)
    → ((logical ≤ 0x3fff)
        × (physical ≤ 0x3fff)
        × (make_server_address logical physical ≡ done (server_address logical physical))
        × IsAddress (server_address logical physical))
      ⊎ (((0x3fff < logical) ⊎ (0x3fff < physical))
          × (make_server_address logical physical ≡ fail invalid_address))
unfolding make_server_address server_address from_raw
make_server_address-total logical physical = ground (arith, maximum_raw_value-at)

-- Two pairs of device addresses that share a server address are the same pair.
pub make_server_address-injective :
    (logical physical logical' physical' : ℕ) (a : HdlcAddress)
    → make_server_address logical physical ≡ done a
    → make_server_address logical' physical' ≡ done a
    → (logical ≡ logical') × (physical ≡ physical')
unfolding make_server_address
make_server_address-injective l p l' p' a e e' = ground (
  arith,
  (from_raw-IsAddress l 1 a).0,
  (from_raw-IsAddress l' 1 a).0,
  (from_raw-IsAddress (l * 128 + p) 2 a).0,
  (from_raw-IsAddress (l' * 128 + p') 2 a).0,
  (from_raw-IsAddress (l * 16384 + p) 4 a).0,
  (from_raw-IsAddress (l' * 16384 + p') 4 a).0,
)
