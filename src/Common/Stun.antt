-- ===== src/Common/Stun.antt =====
-- cpp/common/network_manager.cpp: the loops over the attributes of a STUN response, in
-- GetPublicEndpoint and in GetPublicEndpointParallel. The list is the bytes that were received; a
-- read beyond them is a result of its own.
pub mod Safe
mod Tests
use remote_play.Prelude.{
  ℕ, zero, suc, ◌+◌, ◌-◌, ◌*◌, ◌%◌, List, [], ◌∷◌, Bool, true, false, not, ◌&&◌, Option, none, some,
  ltb, leb, ◌==◌, if◌then◌else◌, get_or, length,
}
use remote_play.Bits.Xor.{xor}

-- A port and the four bytes of an address, or how else the loop ends.
pub data Parsed : Type 0 where
  mapped : ℕ → List ℕ → Parsed
  not_found out_of_bounds unfinished : Parsed

pub data Turn : Type 0 where
  stop : Parsed → Turn
  next : ℕ → Turn

-- ntohs(*(uint16_t*)(buf + offset))
unfoldable pub read16 : List ℕ → ℕ → Option ℕ
read16 buf offset =
    if ltb (offset + 1) (length buf)
    then some (get_or buf offset 0 * 256 + get_or buf (offset + 1) 0)
    else none

-- The port at 6 and the address at 8, under the masks.
unfoldable pub read_address : List ℕ → ℕ → ℕ → ℕ → ℕ → ℕ → ℕ → Parsed
read_address buf offset port a b c d =
    if ltb (offset + 11) (length buf)
    then mapped (xor 16 (get_or buf (offset + 6) 0 * 256 + get_or buf (offset + 7) 0) port) (
        xor 8 (get_or buf (offset + 8) 0) a
        ∷ xor 8 (get_or buf (offset + 9) 0) b
        ∷ xor 8 (get_or buf (offset + 10) 0) c
        ∷ xor 8 (get_or buf (offset + 11) 0) d
        ∷ [])
    else out_of_bounds

-- The offset of the next attribute: four bytes, the value, and the padding.
unfoldable pub after_attribute : ℕ → ℕ → ℕ
after_attribute offset attr_len =
    offset + 4 + attr_len + (if attr_len % 4 == 0 then 0 else 4 - attr_len % 4)

-- MAPPED-ADDRESS, XOR-MAPPED-ADDRESS, or an attribute to pass over.
unfoldable pub attribute : List ℕ → ℕ → ℕ → ℕ → Turn
attribute buf offset attr_type attr_len =
    if attr_type == 0x0001 && leb 8 attr_len
    then stop (read_address buf offset 0 0 0 0 0)
    else if attr_type == 0x0020 && leb 8 attr_len
    then stop (read_address buf offset 0x2112 0x21 0x12 0xa4 0x42)
    else next (after_attribute offset attr_len)

unfoldable pub typed : List ℕ → ℕ → ℕ → Option ℕ → Turn
typed buf offset attr_len none = stop out_of_bounds
typed buf offset attr_len (some attr_type) = attribute buf offset attr_type attr_len

-- GetPublicEndpoint: the loop's condition reads the length first.
unfoldable pub measured : List ℕ → ℕ → Option ℕ → Turn
measured buf offset none = stop out_of_bounds
measured buf offset (some attr_len) =
    if leb (offset + 4 + attr_len) (length buf)
    then typed buf offset attr_len (read16 buf offset)
    else stop not_found

unfoldable pub turn : List ℕ → ℕ → Turn
turn buf offset =
    if leb (offset + 4) (length buf)
    then measured buf offset (read16 buf (offset + 2))
    else stop not_found

-- GetPublicEndpointParallel: the body reads the type and the length, and breaks.
unfoldable pub bounded : List ℕ → ℕ → ℕ → Option ℕ → Turn
bounded buf offset attr_type none = stop out_of_bounds
bounded buf offset attr_type (some attr_len) =
    if ltb (length buf) (offset + 4 + attr_len)
    then stop not_found
    else attribute buf offset attr_type attr_len

unfoldable pub sized : List ℕ → ℕ → Option ℕ → Turn
sized buf offset none = stop out_of_bounds
sized buf offset (some attr_type) = bounded buf offset attr_type (read16 buf (offset + 2))

unfoldable pub turn_parallel : List ℕ → ℕ → Turn
turn_parallel buf offset =
    if leb (offset + 4) (length buf) then sized buf offset (read16 buf offset) else stop not_found

unfoldable pub follow : (ℕ → Parsed) → Turn → Parsed
follow rest (stop p) = p
follow rest (next offset) = rest offset

unfoldable pub scan : ℕ → List ℕ → ℕ → Parsed
scan zero buf offset = unfinished
scan (suc fuel) buf offset =
    let rest : ℕ → Parsed = λ o. scan fuel buf o in follow rest (turn buf offset)

unfoldable pub scan_parallel : ℕ → List ℕ → ℕ → Parsed
scan_parallel zero buf offset = unfinished
scan_parallel (suc fuel) buf offset =
    let rest : ℕ → Parsed = λ o. scan_parallel fuel buf o in follow rest (turn_parallel buf offset)
