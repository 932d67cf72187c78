-- ===== src/Lib.antt =====
-- MyHOME (Stability), an integration of Home Assistant for MyHOME gateways: the core logic of
-- custom_components/myhome.
--
-- Parts. The gateway handler (custom_components/myhome/gateway.py) queues the commands of the
-- entities, delivers them on command channels by a few worker tasks, and tells each caller once
-- what became of its command. A shutter (custom_components/myhome/cover.py, with the roll model of
-- custom_components/myhome/calibration.py) infers its position from the time it travels: it sends
-- its commands through the gateway, hears what became of them by the callbacks, and hears the bus
-- by `handle_event`. The calibration store (custom_components/myhome/calibration_store.py) keeps
-- the shutter profiles and the record of each cover. The panel
-- (custom_components/myhome/panel_write.py) changes that store under a lock, and offers to undo
-- its last write; every save of the store withdraws that offer. What a shutter runs on is resolved
-- from its record in the store, a profile and the file.
--
-- Files.
--   Prelude (Tests, Lists): shared names, Boolean tests, lists measured by native numbers.
--   Dict: a Python dict keyed by text, as an association list.
--   Gateway/Command: `_QueuedCommand`, its two callbacks and `_settle`.
--   Gateway/Queue: `_CommandQueue`; Queue/Order, Queue/Bypass, Queue/Contents and Queue/Lanes its
--     theorems; Queue/Lanes also its runs.
--   Gateway/Stats: `GatewayStats` and the throttled statistics signal; Stats/Timely its theorem.
--   Gateway/Handler: the fields of `MyHOMEGatewayHandler` and the helpers of every path.
--   Gateway/Send: `send`, `send_status_request`, `_enqueue`.
--   Gateway/Worker: `_deliver`, `_on_command_result` and the rounds of `sending_loop`.
--   Gateway/System: the constructor, `close_listener`, and the runs of a whole gateway.
--   Gateway/Listen: `listening_loop` and `_check_idle`; Listen/Loop, Listen/Watchdog its theorems.
--   Gateway/Throttle: `_LogThrottle`; Throttle/Bounds and Throttle/Burst its theorems.
--   Gateway/Settlement and its children: how often the callbacks of a command run.
--   Gateway/Channels: which command channels stay open; Channels/Cancelled: after a cancellation.
--   Cover/Number and Cover/Roll: what is computed with floats, and the roll model.
--   Cover/State: the fields of `MyHOMECover`; Cover/Travel: `_adopt_travel_model`, `_travel`,
--     `_travel_time`, `_estimate`.
--   Cover/Movement, Cover/Stop: a movement from its start to its end, its two corrections, the stops
--     and the timers; Cover/Echo, Cover/Events: `_is_echo` and `handle_event`.
--   Cover/Commands, Cover/Lifecycle: what a user asks for; restarts and `async_apply_calibration`.
--   Cover/Health and its children: every operation of a shutter as a step, and what all of them keep.
--   Cover/Estimate, Cover/Deadline, Cover/Window, Cover/Recalibrated: theorems about one operation.
--   Store/Record: a stored record, a mapping from keys to JSON values, and Python's `==` on it.
--   Store/State: `CalibrationStore`, the operations that write it.
--   Store/Assign: `stored_calibration`, `covers_following`, `async_remove_profile`,
--     `async_set_assignments`.
--   Store/Same, Store/Restore, Store/Orphans, Store/Obeys, Store/Assigned, Store/Unique: their
--     lemmas.
--   Store/Invariant: every operation that writes the store as a step, and what they keep.
--   Store/Written: `cover_calibration_data`, `cover_profile_data`; Written/Read its theorem.
--   Panel/Write: `_diff`, `_remember`, `_take`, `_refuse_if_busy`, `async_undo`, `async_write`.
--   Panel/Restored, Panel/Undone: the undo.
--   Panel/Profiles: `async_profile_rename`, `async_profile_delete`; Profiles/Renamed and
--     Profiles/Refused the theorems about a rename.
--   Panel/Reorder: `async_reorder`; Reorder/Seats and Reorder/Merged its theorems.
--   Panel/Edit: `async_set_travel`, `async_cover_edit`, `async_cover_forget`, `async_profile_edit`;
--     Edit/Asked what is asked of them; Edit/Kept and Edit/Typed their theorems.
--   Panel/Assign: `async_assign`; Assign/Items, Assign/Refused and Assign/Groups its theorems.
--   Resolve/Derive: `derive_cover_from_profile` (custom_components/myhome/validate.py),
--     `profile_as_config`, `merged_profiles`.
--   Resolve/Keys, Resolve/Covers: `resolve_cover_keys`, `resolve_cover`, `resolve_cover_config`;
--     Resolve/Gathered, Resolve/Answers and Resolve/Scales their lemmas; Resolve/Inherited, Resolve/Precedence and
--     Resolve/Assigned their theorems.
--   The modules named Tests: runs at concrete data.
--
-- Choices. In the gateway, instants and durations are whole milliseconds. A float of a record of
-- the store is a code: that code stores and compares floats, and the record `Floats` holds what is
-- done with a number that was typed. The shutter computes: its floats are any type W with the
-- operations of the record `Float W`, its instants and durations are seconds on W, and `utcnow` is
-- read once for each call. Its `send` does not suspend, as the gateway's `send` does not, so no
-- other task runs within one. The resolution reads the codes of the store as floats of W by a
-- parameter, `read`, and what raises in it is `none`: a `KeyError`, or the root of a negative
-- number or a zero height in the scaling of a profile. A callback of a caller is its number and a
-- run of it an entry of `reports`. What a gateway does while a command is written is an argument,
-- an `Attempt`, so an exception at every place where the source expects one is covered. An await
-- at which other tasks may run is the border of a step: the steps of callers, workers and the
-- close come in any order, and what another task does during an attempt is taken before or after
-- it. A save to disk is counted, and its failure is not modelled.
--
-- Bounds. A queue holds at most 200 frames. The drain recurses on one more than the length of the
-- queue, which empties it. `_deliver` recurses on the attempts left, of which there are two.
--
-- Not modelled: log lines and whether they are written; the parts of Home Assistant and of the
-- OWNd library that the code calls; the entities other than shutters, the dialogs and the schemas;
-- the calibration runs and services of a shutter; the fits that make a calibration; the words of
-- refusals; the front end.
pub mod Prelude
pub mod Cover
pub mod Dict
pub mod Gateway
pub mod Store
pub mod Panel
pub mod Resolve
