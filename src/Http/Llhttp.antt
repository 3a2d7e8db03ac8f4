-- ===== src/Http/Llhttp.antt =====
-- third_party/llhttp, of which the parsers know the functions that they call. `E` is what it calls
-- back with.
use hpserver.Prelude.{Option, none, some, if◌then◌else◌, List, ◌++◌, Bytes, codes}
use hpserver.Http.Builder.{is_empty}

pub data Code : Type 0 where
  hpe_ok : Code
  hpe_paused : Code
  hpe_paused_upgrade : Code
  hpe_error : Code

-- An `llhttp_errno_t`, `llhttp_errno_name` of it, and `llhttp_get_error_reason` after it.
pub record Errno : Type 0 where
  pub code : Code
  pub errno_name : Bytes
  pub reason : Option Bytes

-- A run calls back in the order of the list.
pub record Llhttp (E : Type 0) : Type 1 where
  pub Parser : Type 0
  pub init : Parser
  pub reset : Parser → Parser
  pub execute : Bytes → Parser → List E × (Errno × Parser)
  pub finish : Parser → List E × (Errno × Parser)
  pub resume_after_upgrade : Parser → Parser

-- `parse_error_` after a failed call.
abbrev pub error_text : Errno → Bytes
error_text err = elim err.reason [
  | none ↦ err.errno_name
  | some reason ↦
      if is_empty reason then err.errno_name else err.errno_name ++ (codes ": " ++ reason)
]
