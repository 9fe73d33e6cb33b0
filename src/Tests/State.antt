-- ===== src/Tests/State.antt =====
-- The theorem on the state file at a small state.
use dawnshell.Prelude.{ℕ, ◌≡◌, refl, some, List, arith, codes, ℤ, pos, negsuc}
use dawnshell.State.Adopted.{IsWritable}
use dawnshell.State.Fields.{SavedState}
use dawnshell.State.File.{state_text, read_contents}
use dawnshell.State.Lines.{lacks}
use dawnshell.State.RoundTrip.{read_contents-state_text}

abbrev running : SavedState
running = record {
  state = codes "running";
  cgroup_mode = codes "private";
  host_usb_mode = codes "direct";
  launch_mode = codes "systemd";
  launcher = record {
    supervisor_pid = 311;
    supervisor_start_ticks = 1800;
    supervisor_exe_dev = 42;
    supervisor_exe_ino = 7;
    init_host_pid = 312;
    init_start_ticks = 1801;
    init_exe_dev = 43;
    init_exe_ino = 8;
    init_ns_ino = λ n. 4026531836;
  };
  wait_status = negsuc 0;
  updated_epoch = pos 0;
}

abbrev epoch : ℤ
epoch = pos 1700000000

running-IsWritable : IsWritable (record running { updated_epoch = epoch })
unfolding lacks
running-IsWritable = record {
  state = (refl, omega arith);
  cgroup_mode = (refl, omega arith);
  host_usb_mode = (refl, omega arith);
  launch_mode = (refl, omega arith);
  supervisor_pid = omega arith;
  supervisor_start_ticks = omega arith;
  supervisor_exe_dev = omega arith;
  supervisor_exe_ino = omega arith;
  init_host_pid = omega arith;
  init_start_ticks = omega arith;
  init_exe_dev = omega arith;
  init_exe_ino = omega arith;
  init_ns_ino = λ n. omega arith;
  wait_status = omega arith;
  updated_epoch = omega arith;
}

read_contents-state_text_example :
    (text : List ℕ) × (state_text epoch running ≡ some text)
    × (read_contents (pos 5) text ≡ some (record running { updated_epoch = epoch }))
read_contents-state_text_example = read_contents-state_text running epoch (pos 5) running-IsWritable
