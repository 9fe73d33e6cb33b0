-- ===== src/Lib.antt =====
-- DawnShell: a Debian server on rooted Android. This library models the native code under
-- app/src/main/cpp and proves what it promises.
--
-- The parts, and where their code is:
-- - Wire: the byte-level codec protocol, which the client (dawnshell_codec_client.c) and the worker
--   (dawnshell_codec_worker.c) define alike. `put_u32`, `get_u32`, `make_request_header` and so on
--   work on lists of bytes.
-- - Worker: the codec worker's session table and request dispatch (dawnshell_codec_worker.c). The
--   state is `WorkerState`, two slots and the counters; each handler `dispatch_*` has its C name. The
--   codec sessions (dawnshell_codec_ndk.h) are the interface Worker/Platform.antt, an argument of
--   every handler, whose laws are that an output fits the buffer it is given.
-- - Transport: the shared mapping between client and worker (dawnshell_codec_transport.h). `rpc` is
--   `rpc_send` up to its wait and `rpc_receive` behind it; `serve` is one round of the worker's loop
--   and calls Worker. Control words and both slots are the record `Shared`.
-- - Media: the codec sessions themselves (dawnshell_codec_ndk.c). A `Session` is the C struct less its
--   names, the operations keep theirs, and Pending and Output hold the parts of `dscw_codec_dequeue`.
--   Codecs, images and clocks are the interface Media/Ndk.antt, an argument of every operation;
--   Candidates has the choice of a hardware codec, over an interface of its own, `Store`. Worker calls
--   these operations through its `Platform`.
-- - Client: what the codec client (dawnshell_codec_client.c) makes of its arguments, of an Annex B
--   stream (`find_aud`, `load_access_units`) and of a picture. Its requests for a session go to Worker.
-- - Launch: the launcher's options and its `main` (bfu_namespace_probe.c), which ends in one
--   `Command`, and the checks `validate_*` on a running launch, over the record `Proc` of what the
--   kernel says of processes. Launch uses Usb for the device filter.
-- - State: the launcher's state file (bfu_namespace_probe.c). `state_text` is what `write_state`
--   formats, one line for each `Field`, and `read_contents` is `read_state` behind its `read`, on
--   contents without a zero byte. `SavedState` holds the C struct, with Launch's record for its numbers.
-- - Sandbox: the launcher's three seccomp programs (bfu_namespace_probe.c,
--   dawnshell_close_range_guard.h, dawnshell_keyring_guard.h) and a machine for the BPF instructions
--   in them. Jumps go forward, so a run walks down the list.
-- - Usb: host USB devices that the launcher takes from Android (bfu_namespace_probe.c): the device
--   filter, and the rounds that unbind interfaces and bind them again. The file system, the clock and
--   the log are the interface Usb/Host.antt.
-- - Cgroup: how a launch is set up (bfu_namespace_probe.c): `set_systemd_parent_namespaces` with the
--   namespaces, `negotiate_cgroup_mode` with the hierarchies of both versions, their removal, the moves
--   into them, the device programs, and the mounts of `prepare_child_mounts`. Calls of the kernel are
--   the data type `Call` and the interface Cgroup/Kernel.antt; a sequence that stops at the first
--   failure is an `Action`, with rules for what it ensures (Triple) and what it keeps (Keeping).
-- - Stop: how a launch is stopped (bfu_namespace_probe.c): `run_stop`, `run_force_stop`, the waits and
--   the processes of the delegated cgroup, over the interface Stop/System.antt, which has Cgroup's
--   `Kernel`; `write_state` with its temporary file is there. Stop reads the state file with
--   State, checks identities with Launch, and removes the cgroups with Cgroup.
-- - Tests: the theorems at concrete inputs.
--
-- Numbers are natural numbers with the wrap-around of the C types written out; C strings are lists of
-- bytes without their terminator, and NULL is `none`. The fuel of `parse_entries` is one
-- more than the length of the string: every round takes ten bytes, or ends. The wait for an image has
-- as many rounds as milliseconds, since each sleeps for one; the search for a unit has as many as
-- bytes; draining a reader has one more than the
-- images it can give, a parameter. The loops over attempts are bounded in the source, by 16, 3, 20 and 5,
-- and the depth of `remove_cgroup_descendants` by 64. A wait until a deadline has one round more than
-- sleeps fit before it.
--
-- Not modelled: the start of processes and waiting on descriptors; `run_start`, `run_status` and
-- the loops of the supervisor; how a running launch is entered; the network manager; the log and
-- standard output of Cgroup and Stop, with the count of USB nodes for it; the client's terminal
-- and files, and its loops over a session; how a MediaCodec session is configured; the
-- measurements that decide on two of the filters. The Android application is not native code.
pub mod Prelude
pub mod Wire
pub mod Worker
pub mod Transport
pub mod Launch
pub mod Sandbox
pub mod Usb
pub mod State
pub mod Client
pub mod Cgroup
pub mod Stop
pub mod Media
mod Tests
