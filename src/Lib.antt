-- ===== src/Lib.antt =====
-- A verification library of the ESPHome component `hcpbridge`, which stands between a Hoermann garage
-- door drive and a home automation. It models what is answered on each of the two buses, when a
-- press goes out, what is said about it, and what the home automation is shown of the door.
--
-- The parts, and the files that model them (all sources are in components/hcpbridge/ under the
-- repository's root):
--   * State: hcp_state.h and .cpp. `HoermannCommand`, `HcpLink`,
--     `HoermannState` and its setters. A position is a natural number of two hundredths of the way,
--     as it is on the wire, where the code has a float of it; a percentage is two of them.
--   * Events: hcp_events.h (the events) and hcp_events.cpp (the table of their texts).
--   * Ring: hcp_events.h, `HcpEventRing<32>`, with every push and drain taken as one step. Its
--     children: Holds (the invariant, and push), Drain, Queue (the queue that it implements), and
--     Tasks, the same ring with each access to shared memory as a step of its own, for tasks that
--     run at once; of these, Kept and Steps have the invariant, Writes, Reads and Order
--     the proofs.
--   * Capabilities: hcp_capabilities.h and the constants of the two codecs.
--   * Hcp1Frame, Hcp2Frame: hcp1_frame and hcp2_frame, the checksums and frames of the older and the
--     newer bus; each with a child for the checksum and one for the round trips.
--   * Hcp1: hcp1_codec.h and .cpp, `Hcp1Codec`. Its children: Answers (the reply to every frame),
--     Presses (histories of frames and presses), Race (a press between two steps of the bus task),
--     Unaddressed (when a press may wait).
--   * Hcp2: hcp2_codec.h and .cpp, `Hcp2Codec`. The definitions are in Codec (members and
--     constants), Commands (`setCommand`, `stopDoor`, `setPosition`, `checkBusSilence`), Watch
--     (`checkCommandEffect`, `syncCounter`, `rearmLostCommand`), Poll (`setCommandValuesToRead`,
--     `onRequestHook`), Broadcast (`writeBcast`, `checkGotoTarget`), Identity
--     (`onWriteBlockComplete`, `publishIdentity`) and Frame (`onFrame`). The proofs are in Presses
--     (what leaves the presses alone), Repeats, Budget, OwnStop and Runs (how often a command can go
--     out), Stop, NoStop, Target, Counter, Answers, Bounds, Pause and Text. Wire is about the bytes
--     of an answer, of which the drive reads a press in the third and fourth word, with Registers
--     (those that a poll writes), Served, Answered and Frames (the answer to any frame). Tasks has
--     the slot between the two tasks once more, each access to it a step of its own; its children
--     are Whole (a task that nobody interrupts), Count with LoopOwed, BusOwed and Owed (what may go
--     out), and Races. Board is about the drive's registers and what the state shows of them, with
--     Frames, Hooks, Mirror, Histories, Words and Boot; Changed is about the flag that tells the
--     entities, and Noted about the ring, each over whole histories.
--   * ModbusRtu: modbus_rtu.h and .cpp, `ModbusRtuServer`, the port of the newer bus, with Idle (the
--     silence that ends a frame), Collect (the loop for a long frame) and Turns (what a turn does).
--   * Hcp1Serial: hcp1_serial.h and .cpp, `Hcp1SerialServer`, the port of the older bus, with Stream
--     (the port as a stream of frames).
--   * BusTask: hcp_bus_task.h, `settleUntilQuiet` and `startBusTask`, with Settle.
--   * Hcp2Transport, Hcp1Transport: hcp2_transport and hcp1_transport, a port and a codec each. The
--     children of the newer one are Answers (a turn) and Pause (the pause before a restart).
--   * HcpBus: hcp_bus.h, the interface `HcpBus` as a record of operations, with its implementations
--     over the two codecs. Its child Taken has what each command leaves of the newer one.
--   * Component: hcpbridge.h and .cpp, `HCPBridge`, with Log (`drain_events`), Update (`update`) and
--     Shutdown (`on_shutdown`).
--   * Entities: cover/, light/ with output/, switch/ with button/, and the three kinds of sensor, in
--     Cover, Light, Switch and Sensors. The proofs are in Cover/Told, Cover/Flips and Cover/Refusals,
--     Light/Echo, Switch/Honest and Sensors/Shows.
--   * Relay: a codec, the update of the component and a cover together, with Kept and Told: a
--     broadcast on its way to Home Assistant.
--   * Uart: what the driver of the serial ports hands over, which is not code of the repository.
--   * Base: tests on numbers, lists indexed by them, words and bits.
--
-- A codec is a record of its members. Each of its functions takes the codec and returns it, with
-- the function's own result beside it; an answer is the list of its bytes, empty where the code
-- returns 0. The codec owns its state and its ring. Frames arrive on the bus task and presses on
-- the loop task: a run is a sequence of whole calls of either. Where a call can be interrupted
-- between two of its steps, the newer codec has them as steps of their own (Hcp2.Tasks); of the
-- older one, `answer_loaded` is the step that follows the loading of the slot.
--
-- What lies outside the repository is an argument: the UART driver (its return codes, events and
-- reads), FreeRTOS (whether a task was created), the clock (what it shows at each reading), and of
-- ESPHome the light's state, the base class of the output, and the float of a cover's call with
-- the tests and the conversion that the code makes of it. Of the base classes of the entities a
-- model keeps the members that the code reads or writes, the warning flag among them, and gives
-- what was handed to `publish_state` as a list.
--
-- Words wrap as they do in the code: clocks and the ring's positions are below 2 ^ 32 and are
-- subtracted modulo 2 ^ 32, counters of one byte are reduced modulo 2 ^ 8. These loops have fuel,
-- and return `none` while they turn: the retry loop of `push` (one turn is enough for a call that
-- nobody interrupts), the loop for the rest of a long frame (257 turns, one for each byte of the
-- buffer and one to notice), `settleUntilQuiet` (41 turns: forty of five milliseconds fill its
-- two hundred), the wait for the drive to confirm a pause (a turn for each ten milliseconds of the
-- timeout and one more), and the batches of `drain_events` (3 turns for a ring of 32).
--
-- Not modelled: memory orders weaker than one order of all accesses to the ring; frames that
-- arrive between two steps of the loop task, other than during its waits and in Hcp2.Tasks;
-- `dump_config` and the registration of callbacks, which only call ESPHome; the configuration in
-- Python. The texts of the events are not formatted, and the float positions are not modelled
-- below the two hundredths of the wire.
pub mod Base
pub mod State
pub mod Events
pub mod Ring
pub mod Hcp2Frame
pub mod Hcp1Frame
pub mod Capabilities
pub mod Hcp1
pub mod Hcp2
pub mod Uart
pub mod BusTask
pub mod Hcp2Transport
pub mod Hcp1Transport
pub mod HcpBus
pub mod Component
pub mod Relay
pub mod ModbusRtu
pub mod Hcp1Serial
pub mod Entities
