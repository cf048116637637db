-- ===== src/Lib.antt =====
-- Veila, a screen locker for Wayland: a model of the daemon that locks and unlocks the
-- session, and of the curtain that takes the password.
--
-- The program. `veilad` (crates/daemon) listens to logind's lock and unlock signals and to a control
-- socket. To lock, it binds its sockets and starts the curtain process (crates/curtain), which
-- covers the screen and sends passwords over the authentication socket. The daemon checks a password
-- with PAM in a worker, one at a time, slows down after failures, and stops the curtain when a
-- password is accepted or logind asks for it. It restarts a curtain that dies, reloads its
-- configuration while it runs, and suspends the machine when a lock has been idle for long enough.
--
-- The files, and the code each one models:
-- Clock: `Instant` and `Duration` in nanoseconds, with the bounds at which Rust's arithmetic
--   saturates or panics; LockState: crates/daemon/src/domain/lock_state.rs.
-- Auth/Policy, Auth/State: crates/daemon/src/domain/auth.rs. Auth/Backoff and Auth/Throttle prove
--   what the delays and the admission of attempts do.
-- Suspend: crates/daemon/src/app/suspend.rs. Suspend/Decisions and Suspend/Countdown are about one
--   evaluation, Suspend/Ticks about what the tick of the event loop does with it.
-- Shuffle, Background: the wallpaper for a lock, `BackgroundSelectionState` of
--   crates/daemon/src/app/state.rs and `select_initial_background_path` of
--   crates/daemon/src/app/helpers.rs.
-- Daemon/Messages: crates/common/src/ipc.rs. Daemon/Runtime: the record `AppRuntime` of
--   crates/daemon/src/app/state.rs with crates/daemon/src/app/runtime/state.rs.
-- Daemon/Activation, Daemon/Deactivation: crates/daemon/src/app/runtime/lock.rs.
-- Daemon/Client: crates/daemon/src/app/runtime/auth.rs and the connection handler of
--   crates/daemon/src/app/events/auth.rs. Daemon/Signals: crates/daemon/src/app/events/lifecycle.rs,
--   the result handler of events/auth.rs, and events/shutdown.rs. Daemon/Control:
--   crates/daemon/src/app/events/control.rs and the reload of crates/daemon/src/app/helpers.rs.
-- Daemon/Ticks: the tick in crates/daemon/src/app/mod.rs, which decides on a suspend and then
--   reloads a changed configuration. Daemon/Loop: the `select!` loop of the same file as a step
--   relation on the runtime, with reachability, and its exits, with the shutdown after them.
--   Daemon/Consistency, Daemon/Release, Daemon/Outcomes, Daemon/Wedge and Daemon/Workers hold the
--   proofs; the modules called Examples hold runs on concrete inputs.
-- Shell: `ShellState` of crates/ui/src/shell, as far as input goes. Shell/Keys models
--   crates/ui/src/shell/input.rs, Shell/Buttons and Shell/Pointer crates/ui/src/shell/pointer.rs.
--   Shell/Typing, Shell/Cooldown, Shell/Submission and Shell/Requests hold the proofs.
-- Lines: the framing of messages, `read_bounded_line` of crates/daemon/src/adapters/ipc.rs and of
--   crates/curtain/src/ipc. Lines/Framing holds the reference definition of a line, Lines/Reading the
--   proofs. Daemon/Transport: `read_client_message` and `read_daemon_control_message`, which hand
--   messages to Daemon/Client.
-- Watch: the watcher of configuration files, crates/daemon/src/app/watch.rs; Watch/Stamps, Watch/Quiet
--   and Watch/Debounce hold the proofs.
-- Curtain/ScreenOff: `ScreenOffState` of crates/curtain/src/state/power.rs. Curtain/KeyRepeat:
--   crates/curtain/src/state/repeat.rs. Curtain/Resume: crates/curtain/src/state/resume.rs.
-- Curtain/Slideshow: crates/curtain/src/background/slideshow.rs, on the shared Shuffle; its children
--   Order, Valid, Loading and Rounds hold the proofs.
-- Curtain/Interaction: crates/curtain/src/state/interaction with `run_attempt` of
--   crates/curtain/src/ipc/auth.rs. Its state is the part of `CurtainApp` that input reads and writes,
--   with the shell of Shell and the timers. Curtain/Keyboard: the keyboard handlers of
--   crates/curtain/src/wayland/handlers/input.rs, and the control messages that stand before them.
--   Curtain/Submissions, Curtain/Inputs and Curtain/Handlers prove what each handler can submit;
--   Curtain/Attempts puts the handlers together with the workers and the channel of their answers as
--   a step relation; Curtain/Waiting and Curtain/Guard hold further proofs. Curtain/Clicks: the
--   pointer's events in the same file, with the proofs in Curtain/Waking.
-- Int: the signed integers of 32 bits. Renderer: sizes and errors of crates/renderer/src/lib.rs.
--   Renderer/Rect: crates/renderer/src/draw/shape/mod.rs, with the proofs in Intersection and Union.
--   Renderer/Shm: the pool of shared memory and its choice of a slot, crates/renderer/src/shm.rs;
--   Shm/Drawing has the three operations that draw, and Compaction, Valid, Placement and Frames the
--   proofs. Renderer/Pixels: colours and blending of crates/renderer/src/lib.rs, with the proofs in
--   Blending and Opacity. Renderer/Cache: the pruning of
--   crates/renderer/src/background/render_cache.rs, with the proofs in Pruning; Cache/Format: the
--   files of that cache, stored and loaded.
--
-- How the code is rendered. A handler is a function of the runtime that returns a result and the
-- runtime after it, with a log of effects (messages sent, processes stopped, files removed); an
-- error that `?` passes on keeps what was changed before. What the system answers (sockets, process
-- spawning, PAM, logind, D-Bus, files) is an argument, chosen freely. Integers of a fixed width keep
-- their saturation, their wrap-around, or the panic of a build that checks overflow. One loop
-- runs on fuel, the one that drops the released slots at the end of the pool, with as many rounds
-- as there are slots, which is enough; every other definition is structural.
--
-- Not modelled: the rest of the curtain (start-up, surfaces, changes of focus and modifiers, the
-- thread that listens to control messages), the drawing of shapes, text and images, the names
-- of the files of the cache, the layout of the lock screen, the parsing of configuration and options,
-- the services for media, weather and battery, fingerprint readers, and the cache prewarming; log
-- lines and measured times. JSON, UTF-8,
-- sockets and Wayland objects belong to libraries and to the system: what they answer is an argument.
pub mod Prelude
pub mod Clock
pub mod Int
pub mod LockState
pub mod Auth
pub mod Suspend
pub mod Shuffle
pub mod Background
pub mod Lines
pub mod Daemon
pub mod Watch
pub mod Renderer
pub mod Shell
pub mod Curtain
