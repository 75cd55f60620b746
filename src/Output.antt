-- ===== src/Output.antt =====
-- EthernetRecorder of lwip_py/output/ethernet_recorder.py. Its list of frames is an attribute of the
-- class, which the objects look up as they have none of their own.
pub mod Shared
mod Tests
use py_lwip.Prelude.{ℕ, Bool, Option, none, some, List, [], ◌∷◌, ◌++◌}
use py_lwip.Prelude.Ran.{Ran, done}
use py_lwip.Emulation.EthernetBus.{Observer}
use py_lwip.Scheduler.Executor.{update}
use py_lwip.Stack.Lwip.{Bytes}

-- The list objects, and which of them `recorded_frames` of the class and of each recorder is. A
-- recorder has an attribute of its own only if somebody sets one.
pub record Frames : Type 0 where
  pub lists : ℕ → List Bytes
  pub class_frames : ℕ
  pub own_frames : ℕ → Option ℕ

-- `recorded_frames = []` in the class, and no `__init__`.
abbrev pub no_frames : Frames
no_frames = record { lists = λ l. []; class_frames = 0; own_frames = λ r. none }

abbrev lookup_frames : Option ℕ → ℕ → ℕ
lookup_frames none class_frames = class_frames
lookup_frames (some own) class_frames = own

-- `self.recorded_frames`: the attribute of the object, or else of its class.
abbrev pub frames_of : ℕ → Frames → ℕ
frames_of self w = lookup_frames (w.own_frames self) w.class_frames

abbrev pub recorded_frames : ℕ → Frames → List Bytes
recorded_frames self w = w.lists (frames_of self w)

-- `__call__` of the recorder `self`.
abbrev pub recorder : (self : ℕ) → Observer Frames Bytes
recorder self netif frame_to_record was_forwarded w =
    let frames = frames_of self w in
    done (record w { lists = update w.lists frames (w.lists frames ++ frame_to_record ∷ []) }) tt
