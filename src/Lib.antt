-- ===== src/Lib.antt =====
-- The verification library of cap-fmu, the unit that ties an autopilot (MAVLink), a flight-safety
-- server (FSS) and a search-management server (SMM) together.
--
-- The parts and how they interact. FSS, SMM and the autopilot report commands, positions, battery
-- and link status on threads of their own; each report becomes an event on one queue, and one
-- event-loop thread hands it to FMUStateMachine (src/fmu.cpp), which decides the state of the
-- aircraft by a fixed priority order and calls the autopilot and SMM when the state changes. The FSS
-- client receives each operator command once for every server, has it actioned once, and sends the
-- outcome back for every copy.
--
-- The files:
--   Prelude/   shared: tests on numbers, lists, association lists, runs that conserve items, decimal
--              printing, and IEEE doubles (Prelude/Double: exact multiples of 2^-1074 with rounding
--              to nearest, the infinities and one NaN).
--   Types      the enums and structs that the parts exchange: src/fmu-state-types.hpp,
--              src/fmu-core-types.hpp, src/fss/fmu-fss-types.hpp, src/smm/smm-command.hpp.
--   Fmu/       FMUStateMachine of src/fmu.cpp. State has its fields (record Fmu) and updateState,
--              Action has actionState, Handlers has the public methods under their names
--              (FSSNewCommand is fss_new_command), Run has sequences of inputs. A handler returns the
--              new machine and the calls it makes, in order; what those calls answer is a parameter
--              (Env). The other modules prove: Settled, Safety, Failsafe the priority order; Battery
--              and Altitude the latches; Commands the report on a command; Calls and Role the calls.
--   Fss/       Payload and AckGroup are CommandPayload and CommandAckGroup of
--              src/fss/command-ack-group.hpp, CommandAck is src/fss/command-ack.hpp and Client is
--              the command handling of src/fss/fss-client-ssl.cpp. The mutex of the group makes each
--              call one step, so an interleaving is a list of events. Queue is the send worker of
--              src/fss/fss.cpp. The FSS library is a parameter
--              (Transport: the number of a command, whether a connection is there and has acks).
--   Dispatch/  EventDispatcher of src/event-dispatcher.cpp with the events of src/event.hpp: dispatch
--              is its visit, and Machine ties its events to the inputs of Fmu/Run. Throttle and
--              Remembered are about the ADS-B reports passed on to the autopilot.
--   Aircraft/  src/aircraft.hpp; the local clock's reading is an argument.
--   Mav/       Mission is src/mav/mission-plan.hpp, Link is src/mav/mav-comms.hpp, ModeResolve is
--              src/mav/mode-resolve.hpp with the families of src/mav/failsafe-params.hpp, Encoding is
--              src/mav/latlon-encoding.hpp, src/mav/battery-voltage.hpp and src/mav/velocity.hpp.
--              Upload is the part of mav_connection (src/mav/mavlink.cpp) that commands modes and
--              uploads missions; the sections under its state_lock are functions, and Upload/Regions
--              has them as the steps that the threads interleave. Regions/Waypoint is send_waypoint.
--              A send is not a step of its own: of mission_ack, Regions has the decision under the
--              lock, not the AUTO that follows it.
--              Upkeep is the heartbeat loop, the sends and the reconnects of the same file, and
--              Receive its processMavLinkMsg with the systems of src/mav/mav-sys.cpp, which a
--              teardown resets (reconnect).
--   Units, Smm/SearchAltitude   src/altitude-units.hpp and src/smm/search-altitude.hpp; std::tan is a
--              parameter, and a cast that C++ leaves undefined has no result.
--   Smm/       Search is SMMSearch and its waypoints, Worker the state and the queue of SMM
--              (src/smm/smm.cpp, src/smm/smm.hpp) with the public methods, Worker/Connect, Acquire
--              and Tasks the tasks of its thread, Worker/Run its turns. The smm-asset library is a
--              parameter: what each of its calls answers. A method that another thread calls while a
--              task runs is a request at one of the points where the task does not hold the lock; what it
--              reads meanwhile is not modelled, so Invariant is about the time between tasks.
--              Judged and Sessions are views of a round and of a connection; the other modules prove:
--              Lawful the calls of the library, Searches that no search handle is lost, Outcome and
--              Ends the acquisition and that every task ends.
--   Config/    FmuConfig of src/fmu-config.hpp with the checks of src/fmu-config.cpp, and in Load
--              loadFmuConfig; what the JSON library answers, and whether the file opens and parses,
--              are parameters. Exceptions are the second case of Result.
--   LogWriter/ src/log-rotation.hpp and the size accounting of src/logger.cpp; whether a write or an
--              open succeeds is an argument.
--
-- Numbers: unsigned integers are natural numbers; where the code computes with one that can wrap (the
-- epoch of a group, the uint16_t of a mission sequence number) the modulus is written out. The
-- latch counts are ints of the configuration, taken as natural numbers. There is fuel in
-- Prelude/Decimal (20 digits, those of a uint64_t), in Prelude/Double (2100 bits, more than a
-- quotient in range has) and in the acquisition loop of Smm/Worker/Acquire, whose third round ends
-- it at the latest (Smm/Worker/Ends).
--
-- Not modelled: sockets, MAVLink packing, files, threads' start and stop, the queue of the logger
-- and the start-up code; the queue between the threads; and, of src/mav/mavlink.cpp, the replies on
-- failsafe parameters.
mod Prelude
pub mod Types
pub mod Fmu
pub mod Fss
pub mod Mav
pub mod Aircraft
pub mod Smm
pub mod Units
pub mod Dispatch
pub mod Config
pub mod LogWriter
