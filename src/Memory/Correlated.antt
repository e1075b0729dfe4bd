-- ===== src/Memory/Correlated.antt =====
-- `crates/memory-core/src/correlated.rs`, `correlated/keys.rs` and `correlated/macs.rs`: the keys and
-- the MACs of authenticated bits, `M = k + x * delta`. `Delta`, `Key` and `Mac` wrap a block.
pub mod Derandomize
pub mod Keys
pub mod Once
pub mod Macs
pub mod Proof
use mpz.Prelude.{ℕ, ◌/◌, ◌%◌, Bool, true, false, List, [], ◌∷◌, get_or, if◌then◌else◌}
use mpz.Block.{Block, zero_block, bitxor, lsb, set_lsb, tabulate, test_bit}

-- `Block::new`, of the bytes of a block.
unfoldable pub from_bytes : List ℕ → Block
unfolding tabulate
from_bytes bytes = tabulate 128 (λ i. test_bit (get_or bytes (i / 8) 0) (i % 8))

abbrev pub mac_zero : Block
mac_zero =
    from_bytes
      (146 ∷ 239 ∷ 91 ∷ 41 ∷ 80 ∷ 62 ∷ 197 ∷ 196 ∷ 204 ∷ 121 ∷ 176 ∷ 38 ∷ 171 ∷ 216 ∷ 63 ∷ 120 ∷ [])

abbrev pub mac_one : Block
mac_one =
    from_bytes
      (219 ∷ 104 ∷ 26 ∷ 50 ∷ 91 ∷ 130 ∷ 201 ∷ 178 ∷ 144 ∷ 31 ∷ 95 ∷ 155 ∷ 206 ∷ 113 ∷ 5 ∷ 103 ∷ [])

-- `Delta::new`.
unfoldable pub new_delta : Block → Block
new_delta value = set_lsb true value

-- `Key::auth`.
unfoldable pub auth : Block → Bool → Block → Block
auth key bit delta = bitxor key (if bit then delta else zero_block)

-- `Key::adjust`.
unfoldable pub adjust_key : Block → Bool → Block → Block
adjust_key key adjust delta = set_lsb false (bitxor key (if adjust then delta else zero_block))

-- `Key::pointer` and `Mac::pointer`, `Mac::set_pointer`.
abbrev pub pointer : Block → Bool
pointer block = lsb block

unfoldable pub set_pointer : Block → Bool → Block
set_pointer mac bit = set_lsb bit mac

-- `KeyStore::new`, the key of the public 1.
unfoldable pub public_one : Block → Block
public_one delta = set_lsb false (bitxor mac_one delta)

-- `Mac::public`.
abbrev pub public_mac : Bool → Block
public_mac bit = if bit then mac_one else mac_zero

-- `KeyStore::try_set_public`, the key of a public bit.
abbrev pub public_key : Block → Bool → Block
public_key delta bit = if bit then public_one delta else mac_zero
