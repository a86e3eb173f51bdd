-- ===== src/Lib.antt =====
-- devicecode-go: firmware services for Pico-class boards. This library models the parts that carry
-- the program's own logic, as functions and step relations, and proves what makes them correct.
--
-- The parts, and how they interact. Services talk over a bus (bus/bus.go): a trie of subscriptions
-- and retained messages, and one bounded channel for each subscription. Bytes of serial ports move
-- through lock-free rings (x/shmring/shmring.go) that are passed about as handles
-- (x/shmring/registry.go). The hardware layer (services/hal) drives devices, among them the battery
-- charger LTC4015 through its driver (drivers/ltc4015). The main program's reactor (main.go) takes the
-- readings that the hardware layer publishes and switches the power rails.
--
-- Files.
--   Base and its children: tests, lists, digits, machine words, integers.
--   Bus: bus/bus.go. Topic holds tokens, topics and messages; Trie the trie, where a pointer to a
--     subscription is a number and a child map an association list (order of entries: the order in
--     which Go ranges over the map); Channel is tryDeliver; Broker the state of the bus with Publish,
--     Subscribe, Unsubscribe, Disconnect, Request and Reply. A payload is read only as nil or not.
--   Shmring: x/shmring/shmring.go. A channel of capacity 1 is a Boolean. WriteCommit and ReadRelease
--     are cut at their loads and their store; Steps interleaves them. Registry: registry.go.
--   I2c: the bus that the drivers are given, a parameter.
--   Ltc4015: drivers/ltc4015. bus.go and the errors in the parent, registers.go in Reg and Bit,
--     codec.go in Codec, device.go in Setup, telemetry.go in Telemetry, limits_alerts.go in Limits and
--     Alerts, chemistry.go in Charging, validate.go in Validate, snapshot.go in Snapshot. RegisterFile
--     says what the driver relies on of a healthy device, and has an instance in Tests.
--   Reactor: main.go, the reactor that switches the power rails. The parent holds its state and
--     decisions, Sequence the rails, the LED and the tick, Inputs the readings, Json the streaming
--     writer, Bitfields the tables of types/power.go, Rails what the commands leave; a time is a
--     number of nanoseconds, a publication a command.
--   Hal: services/hal/internal/core. Data holds types.go, payload.go and the types of types/hal.go;
--     Topics is topics.go; Poller is poller.go, the map and the heap of the polls, with the methods of
--     the heap in Indices; State and Core are loop.go and replies.go. The devices are a record of
--     functions on a state of their own; what is sent to the bus is a list of outputs, which
--     Core/Replies puts on the bus of bus/bus.go.
--   Pins: services/hal/internal/provider/rp2_resources.go, the claims of pins, the PWM slices and
--     the edges of inputs (Edges). The machine package is a parameter: the slice of a pin, and the
--     results of each call.
--   Strconvx: x/strconvx/strconvx_mcu.go, integers as text; a byte string is a list.
--   Mathx: x/mathx/map.go and lerp.go, the mapping and interpolation of sixteen-bit words.
--   Tests, in each part: the theorems at concrete inputs.
--
-- Bounds and fuel. No definition but one has fuel: `emit` of Strconvx has the room of its buffer, and
-- is shown not to run out of it. Every other loop is recursion on a list, a path or a tree; the loop
-- of the HAL is cut into passes, which a run takes from a list.
-- Ring indices are numbers below 2 ^ 32 with the wrap-around written out; sizes go up to 2 ^ 31.
-- int32 and int64 results wrap where they can leave their range. Go's panics are `none`.
--
-- Not modelled: the topic interner, which shares storage; RequestWait, a wait on a context; receivers
-- that take messages while a delivery is under way; the devices of services/hal, the registration of
-- builders, and of rp2_resources.go the goroutine of a ramp, the subscriptions of the edge worker,
-- I2C and serial ports; drivers/aht20; the other helpers under x/; the logger and the start of
-- main.go; and cmd/. Memory order is sequential consistency.
pub mod Base
pub mod Shmring
pub mod I2c
pub mod Ltc4015
pub mod Bus
pub mod Mathx
pub mod Reactor
pub mod Strconvx
pub mod Hal
pub mod Pins
