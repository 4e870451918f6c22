-- ===== src/Task.antt =====
-- include/schedrt/task.hpp and the structs of include/schedrt/accelerator.hpp. A time point and a
-- duration are their counts of nanoseconds. The scheduler only writes the flag `ready`.
use ece506scheduler.Base.{ℕ, ℤ, pos, Bool, false, List, [], Option, none, Text}

pub data ResourceKind : Type 0 where
  cpu zip fft fir : ResourceKind

-- static_cast<int>(kind)
abbrev pub kind_rank : ResourceKind → ℕ
kind_rank cpu = 0
kind_rank zip = 1
kind_rank fft = 2
kind_rank fir = 3

pub record Task : Type 0 where
  pub id : ℕ
  pub app : Text
  pub priority : ℤ
  pub release_time : ℤ
  pub deadline : Option ℤ
  pub depends_on : List ℕ
  pub params : List (Text × Text)
  pub est_runtime_ns : ℤ
  pub required : ResourceKind
  pub ready : Bool

pub record ExecutionResult : Type 0 where
  pub id : ℕ
  pub ok : Bool
  pub message : Text
  pub runtime_ns : ℤ
  pub accelerator : Text

pub record AppDescriptor : Type 0 where
  pub app : Text
  pub bitstream_path : Text
  pub kernel_name : Text
  pub kind : ResourceKind

-- A task with its in-class initializers, created at the time `now`.
abbrev pub new_task : ℤ → Task
new_task now = record {
  id = 0;
  app = [];
  priority = pos 0;
  release_time = now;
  deadline = none;
  depends_on = [];
  params = [];
  est_runtime_ns = pos 0;
  required = cpu;
  ready = false;
}
