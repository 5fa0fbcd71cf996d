-- ===== src/Execution/System.antt =====
-- Any number of execute handlers over one store, their accesses interleaved in any order with each
-- other and with the statements of the other handlers, which create and resolve requests
-- (gateway/internal/api/execute.go, approvals.go, tools.go).
use sentrymesh.Base.{ℕ, Bool, List, ◌==◌, if◌then◌else◌, String}
use sentrymesh.Json.{Arguments}
use sentrymesh.Tools.{Reason}
use sentrymesh.Approval.{Codec, new_store}
use sentrymesh.Approval.Lifecycle.{Op, Verdict, creates, resolves, step}
use sentrymesh.Execution.{Env, World, Call, Pc, entry, advance}

-- The handlers are numbered; one that is never picked has not started.
pub record System : Type 0 where
  pub world : World
  pub pc : ℕ → Pc

abbrev pub at : (ℕ → Pc) → ℕ → Pc → ℕ → Pc
at pc i p j = if i == j then p else pc j

pub data Other : Op → Type 0 where
  creation :
      (codec : Codec) (up : Bool) (now : ℕ) (tool : String) (arguments : Arguments) (risk : ℕ)
      (reason : Reason)
      → Other (creates codec up now tool arguments risk reason)
  resolution : (up : Bool) (id : ℕ) (verdict : Verdict) → Other (resolves up id verdict)

pub data Step (codec : Codec) (calls : ℕ → Call) (s : System) : System → Type 0 where
  turn :
      (i : ℕ) (env : Env)
      → Step codec calls s (record {
        world = (advance codec env (calls i) s.world (s.pc i)).0;
        pc = at s.pc i (advance codec env (calls i) s.world (s.pc i)).1;
      })
  other :
      {o : Op}
      → Other o
      → Step codec calls s (record s { world = record (s.world) { store = step s.world.store o } })

abbrev pub init : System
init = record {
  world = record { store = new_store; events = List.[]; runs = List.[] };
  pc = λ _. entry;
}

pub data Reach (codec : Codec) (calls : ℕ → Call) : System → Type 0 where
  start : Reach codec calls init
  later : {s t : System} → Reach codec calls s → Step codec calls s t → Reach codec calls t
