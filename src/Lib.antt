-- ===== src/Lib.antt =====
-- WENDOUGEE DATA: the protocol library in src/wendougee_data and the Home Assistant
-- integration in custom_components/wendougee_data, which reads and controls an espresso
-- machine over Bluetooth.
--
-- Parts and files. Bytes and registers: Crc models crc.py, Modbus modbus.py, Events events.py,
-- Reads (with Reads.Stream for ReadResponseStream) reads.py, Telemetry telemetry.py, State
-- state.py, ProfileReads profile_reads.py and Controls controls.py. Sessions: Session models
-- the state and callbacks of ReadSession (session.py) and ControlSession (control_session.py),
-- Link the exchanges on it, Lifecycle its opening and closing, and Reading the readings of
-- bluetooth.py. Transactions: Command holds the command values and requests, Press the shared
-- steps, and Control.Boiler, Control.Profile, Control.Preparation and Control.Audit the
-- functions set_boiler, start_stored_profile, prepare_pilot_profile and audit_profile_reads of
-- control_session.py; Control.Cleaning models cleaning.py, and Execute control.py
-- (Execute.Watch its execute_cleaning). Integration: Coordinator models the guarded controls
-- of coordinator.py, Coordinator.Polling its polls and Coordinator.Sampling its sampling
-- benchmark and captures, Activity activity.py and Journal shot_journal.py. Schedules models
-- the data and the store of schedules.py, Schedules.Edges its times, timers and status, and
-- Schedules.Runs the run of an edge, the pause, the acknowledgement and the shutdown; Capture
-- and Capture.Benchmark model fast_capture.py, and Evidence, Evidence.Records and
-- Evidence.Records.Documents evidence.py.
--
-- State and operations. A component is a record, an operation a function that returns the next
-- record, with a Result where the source raises. An exception is a constructor of Error, and
-- ControlRejected is control_rejected. A transaction is a program M on a Link: the session,
-- the list of requests written, latest first, and a world. The Transport parameter answers
-- each write and each sleep with the callbacks that run before the task goes on (fragments and
-- disconnections in any order and number) and with what cuts the wait short (a failing write,
-- a timeout, a cancellation); the machine, the Bluetooth stack and the event loop are not
-- under the modelled sources, and nothing is assumed of them. A request counts as written from
-- the moment that it is handed to the machine's route, also if that write fails. One task
-- drives a session, so the lock of _exchange is free. The Backend of the coordinator stands
-- for the executors, the store and the clock in the same way; a save that raises leaves the
-- stored state as it was.
--
-- Schedules. A Plant is the coordinator, the schedules and the list of the calls of
-- execute_boiler, latest first; Home stands for the helpers, the clock, the store, the
-- notifications and the executors. A run is cut at its wait for the connection lock: what
-- other tasks do then is a parameter, and Step is everything that may happen between the cuts.
-- The parts between are taken as atomic: no other run of an edge acts while one holds the
-- lock, and what else may happen during its awaits is left out. A call of execute_boiler is
-- noted with the date under which its run marked the edge, before the save. Saves complete in
-- the order in which they start, and a stored document has the shape that the integration
-- writes.
--
-- Captures. Paced stands for the clocks, the pauses and a ReadSession. A time is a number of
-- microseconds, and a rate a whole number that divides a second, as those of the source do. A
-- rate that was measured is a fraction, and the comparison with 85 percent of the target is
-- scaled.
--
-- Documents. A JSON value is as typed as the code tells apart: what the code only refuses is
-- one constructor. Texts stands for the search for sensitive patterns, the ISO texts of times,
-- str.replace and upper case.
--
-- Numbers are natural. A float that is a register divided by ten is kept as the register, in
-- tenths, and an instant as microseconds; comparisons are scaled with them. Bytes are numbers,
-- with IsBytes where a theorem needs the bound. The CRC keeps its 16 bits by the shifts and
-- masks of the source. Fuel is used three times. The loop of ReadResponseStream._extract has
-- the length of the buffer, and every round takes five bytes at least off it. The loop of a
-- capture has one pass more than the periods of its duration, and every pass but the last
-- takes one. The observation of a cleaning has the passes for which its timeout leaves room,
-- at half a second of sleep each, and is a timeout after them.
--
-- Not modelled: the transports of bluetooth.py and live.py, entities, flows, diagnostics and
-- charts, the files and the report of evidence.py, next_edge and the subscriptions of
-- schedules.py, saving and loading of the journal and the tracker. The texts of Home Assistant
-- errors are shortened; no decision rests on them.
pub mod Base
pub mod Crc
pub mod Modbus
pub mod Events
pub mod Reads
pub mod Telemetry
pub mod State
pub mod ProfileReads
pub mod Controls
pub mod Reading
pub mod Capture
pub mod Command
pub mod Session
pub mod Link
pub mod Press
pub mod Control
pub mod Journal
pub mod Activity
pub mod Lifecycle
pub mod Execute
pub mod Evidence
pub mod Coordinator
pub mod Schedules
pub mod Tests
