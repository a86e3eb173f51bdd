-- ===== src/Reactor/Telemetry.antt =====
-- main.go, `jsonWrite` and the documents that it sends, on the bytes that the ring holds.
use devicecode_go.Base.{◌+◌, ◌%◌, ◌^◌, ◌<◌, some, ◌++◌, length, ◌≡◌, ◌⊎◌}
use devicecode_go.Base.Int.{to_bits}
use devicecode_go.Base.Text.{Bytes}
use devicecode_go.Shmring.{Ring, space}
use devicecode_go.Shmring.Valid.{IsValid}
use devicecode_go.Shmring.Window.{contents}
use devicecode_go.Reactor.{Reactor}

-- Some of the bytes are appended to the ring, the others counted; with room for all, all are.
abbrev pub Sends : Reactor → Ring → Bytes → Reactor → Type 0
Sends r ring doc r' =
    (ring' : Ring) × (kept : Bytes) × (r'.json_out ≡ some ring')
    × IsValid ring'
    × (contents ring' ≡ contents ring ++ kept)
    × ((to_bits 32 r'.dropped_uart0_bytes + length kept) % 2 ^ 32
        ≡ (to_bits 32 r.dropped_uart0_bytes + length doc) % 2 ^ 32)
    × (space ring' + length kept ≡ space ring)
    × ((kept ≡ doc) ⊎ (space ring < length doc))
