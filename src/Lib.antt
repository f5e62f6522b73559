-- ===== src/Lib.antt =====
-- The software of an autonomous sailboat (boat), as far as it is modelled here.
--
-- The program is a set of nodes (util/node.h), one process each, that talk over queues in shared
-- memory (ipc/). A queue is a ring of preallocated messages to which writers send and from which
-- every reader follows with a position of its own; a semaphore counts who has it open. Tests run
-- all nodes in one process, over a queue in memory and a fake clock. The node on the CAN bus
-- (can/) joins frames to messages and decodes their fields for the queues; the receiver of the
-- remote control (sensor/read-sbus.cc) decodes a serial protocol; the waypoint manager
-- (control/waypoint_manager.cc) turns challenges, what the camera sees and the remote control
-- into orders for the tacker, the rudder and the winch; the tacker (control/line_tacking.cc)
-- walks along the waypoints and sends headings, or a planner (control/line_plan.cc) looks for the
-- cheapest path through the next gate and sends its first heading, a controller
-- (control/simple.cc) turns these into angles of rudder and sail, and control/scamp.cc into
-- positions of the servos, as the mode of each allows; a logger (util/logger.cc) writes what
-- passes over the queues to a file, and a replay (util/log-replay.cc) plays it back.
--
-- The files and the code they are about:
--   * Prelude: names and lemmas that the others share. Numbers are natural numbers, and machine
--     words keep their wrap-around written out (Prelude/Words, Prelude/Bits); int is Prelude/Int;
--     lists of bytes are little-endian numbers (Prelude/Bytes); floating point arithmetic is a
--     record of operations that is a parameter (Prelude/Floats), with what comparisons promise as
--     laws where a theorem needs them, and whole numbers as an instance (Prelude/Floats/Whole).
--   * MessageQueue: ipc/message_queue.hpp. Header is mq_hdr_t; do_send and do_receive are the
--     functions of those names, the latter in its three modes, with what the condition variable
--     does as wake-ups that the environment chooses. Layout is about the addresses in the shared
--     memory, Window about the positions in the ring, Send and Receive about one operation, Order
--     about runs of them.
--   * Queue: the constructor and the destructor of ipc/queue.cc, each call on the semaphore as an
--     event, since other processes come between them; Writers is about runs of these.
--     Queue.Proto: ProtoQueue of ipc/queue.hpp over the queue in shared memory, with serialising
--     and parsing as a parameter. Queue.InProcess: ipc/test_queue.h and ipc/test_queue.cc for one
--     name of a queue, in Lockstep with senders that wait for all readers.
--   * Can.Id: can/pgn.h and can/pgn.cc. Can.Field: ExtractNumberField and IsReserved of
--     can/can.cc; the loop over the bits has the size of the field as its fuel, and takes one bit
--     at least in each round. Can.Packet: CANMessage of can/can.h and CanNode::Iterate of
--     can/can.cc behind the read from the socket; a write outside of the buffer is a fault.
--     Can.Decode: DecodeAndSend, with the protocol buffer of a queue as a function from field
--     numbers to values. Can.Construct: ConstructMessage.
--   * Control.Waypoint: WaypointManager, with its state and messages in Control/Waypoint.antt,
--     its handlers in Handlers, DoStationKeep, DoVisionSearch and DoObstacleAvoid in Challenges,
--     and Iterate and runs of the node in Run. Each handler and iteration is one step that
--     returns the new state and what it sends. Control.Util: norm_angle, GPSDistance,
--     GPSLatLonScale and Sign of control/util.cc and control/util.h.
--   * Control.LineTacker: LineTacker, with ProcessWaypoints and the step along the waypoints in
--     Control/LineTacker.antt, the rewards of headings in Rewards, DistanceFromLine and the mode
--     LINE in Lines, and GoalHeading, Iterate and the handlers in Run. Control.Simple:
--     SimpleControl. Control.Ballast: BallastControl of control/ballast.h and control/ballast.cc.
--     Control.Scamp: SCAMP, with the orders to the servos in Control/Scamp.antt and the handlers
--     and Iterate in Handlers. An access outside of an array, of the points of a list of
--     waypoints or of a message's channels is a fault, and counters of iterations are not
--     wrapped, since the overflow of int is undefined.
--   * Control.LinePlan and Control.Planner: LinePlan of control/line_plan.h and
--     control/line_plan.cc over the same records. The costs are in Control/LinePlan.antt
--     (TurnCost, StraightLineCost, CrossFinishCost, ObstacleCost) and Segments (SingleLineCost,
--     LinePairCost); BackPass is one pass of the descent, Optimize its fifty rounds
--     (OptimizeMultipleTacks), Hypotheses is GenerateHypotheses, and FindPath builds and compares
--     the plans (FindMultiplePath). Control.Planner is its state with the frame and the gates,
--     Control.Planner.Walk is UpdateWaypointInc, Control.Planner.Heading is GetGoalHeading and
--     Iterate, and Control.Planner.Handlers the handlers, the constructor and runs of the node. A
--     failed CHECK and an index out of range are none, in the lists, in the points that a pass of
--     the descent moves and in the polygons, which Obstacles and Control.Planner.Fenced are
--     about; loops over indices run down the rounds that are left, as many as the code has.
--   * Control.Adaptive: control/adaptive.h and control/adaptive.cc. The forces and torques of
--     ControlPhysics are in Control/Adaptive.antt, GlobalMaxForceForTorque in Search, the
--     parameters that adapt and NetForce in Parameters, and AdaptiveControl with its handlers,
--     Iterate and runs in Run. The sums of products that Eigen forms are a parameter, and so is
--     what angles hold that were never set.
--   * Math.Polygon: math/polygon.h and math/polygon.cc over a record of what Eigen does with
--     vectors; Nearest is about the loop over the vertices, Neighbours about the edges beside the
--     nearest one, InRange about the indices. A vertex that is read out of range is none, also
--     where a polygon has none at all.
--   * Sensor.Sbus: ReadSBUS::Iterate of sensor/read-sbus.cc over the bytes that the port
--     delivers.
--   * Util.Log: the log file of util/logger.cc and ReadLogMessage of util/log-replay.cc; reading
--     all of a file has the length of the file as its fuel, since each message takes two bytes at
--     least. Util.Replay: LogReplay::Run, message by message.
--   * Util.Clock: the fake clock of util/clock.h and util/clock.cc, with its heap of wake-up
--     times as a sorted list and the sleeping threads as a list of the times they wait for. Loop
--     is Loop::WaitForNext, whose fuel is a round more than the nanoseconds from the last trigger
--     to a limit that the clock stays below: each round adds a period of one at least.
--   * RigidWing: ParseMessage of rigid_wing/rigid_wing.cc.
--
-- Concurrency: what the code does under one lock is one step, and a run is any sequence of steps.
-- The handlers of a node that hold no lock are steps too, so finer interleavings of them are not
-- modelled.
--
-- Not modelled: sockets, files, serial ports, shared memory objects and threads themselves, which
-- are I/O; protocol buffers, Boost, Eigen and the tables of canboat, which are libraries; the
-- simulator, the web server and the numerical code (sensor/state_estimator.cc, sim/), whose
-- content is floating point arithmetic.
pub mod Prelude
pub mod Math
pub mod MessageQueue
pub mod Queue
pub mod Can
pub mod Control
pub mod Sensor
pub mod Util
pub mod RigidWing
