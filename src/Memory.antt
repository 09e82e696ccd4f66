-- ===== src/Memory.antt =====
-- pkg/memory/storage.go: the interface `Memory` over a world `W`, which holds what is stored. A
-- read returns a result and changes nothing; a write returns the new world, on an error too. The
-- map from executions to agents answers "" for a missing key, a missing code archive is nil.
pub mod Redis
use mathlib.Core.List.{Memᴰ}
use serverless_flux.Base.{String, Bool, ◌≡◌, ◌⊎◌, Option, some, none, List, ◌==◌}
use serverless_flux.Base.Result.{Result, ok}
use serverless_flux.Models.{Agent, Function}

-- `[]byte`: the program passes archives on and looks only at whether one is empty.
abbrev pub Bytes : Type 0
Bytes = String

pub record Memory (F W : Type 0) : Type 0 where
  pub save_function : Function → W → Result (Unit {0}) × W
  pub get_function : String → W → Result (Option Function)
  pub get_all_functions : W → Result (List Function)
  pub save_code_archive : String → Bytes → W → Result (Unit {0}) × W
  pub get_code_archive : String → W → Result (Option Bytes)
  pub save_agent : Agent F → W → Result (Unit {0}) × W
  pub get_agent : String → W → Result (Option (Agent F))
  pub get_all_agents : W → Result (List (Agent F))
  pub delete_agent : String → W → Result (Unit {0}) × W
  pub save_execution_to_agent_map : String → String → W → Result (Unit {0}) × W
  pub get_execution_to_agent_map : String → W → Result String
  pub flush : W → Result (Unit {0}) × W

-- The abstract content of a store: what it holds under each key.
pub record Contents (F W : Type 0) : Type 0 where
  pub agents : W → String → Option (Agent F)
  pub functions : W → String → Option Function
  pub archives : W → String → Option Bytes
  pub executions : W → String → Option String

module _ {F W : Type 0} (C : Contents F W) where
  -- Every stored agent stands under its own identifier.
  abbrev pub IsKeyed : W → Type 0
  IsKeyed w = (k : String) (a : Agent F) → C.agents w k ≡ some a → a.id ≡ k

  -- A write touched at most the agents.
  pub record SameButAgents (w w' : W) : Type 0 where
    pub functions : (k : String) → C.functions w' k ≡ C.functions w k
    pub archives : (k : String) → C.archives w' k ≡ C.archives w k
    pub executions : (k : String) → C.executions w' k ≡ C.executions w k

-- What the clients of the agents' part rely on: a read that succeeds shows the content, a write
-- that succeeds is seen, and one that fails has either happened or not.
pub record AgentLaws {F W : Type 0} (M : Memory F W) (C : Contents F W) : Type 0 where
  pub get_agent_ok :
      (k : String) (w : W) (o : Option (Agent F)) → M.get_agent k w ≡ ok o → o ≡ C.agents w k
  pub get_all_agents_ok :
      (w : W) (l : List (Agent F)) (a : Agent F)
      → M.get_all_agents w ≡ ok l
      → Memᴰ a l
      → (k : String) × (C.agents w k ≡ some a)
  pub save_agent_ok :
      (a : Agent F) (w : W)
      → (M.save_agent a w).0 ≡ ok tt
      → C.agents (M.save_agent a w).1 a.id ≡ some a
  pub save_agent_any :
      (a : Agent F) (w : W)
      → (C.agents (M.save_agent a w).1 a.id ≡ some a)
        ⊎ (C.agents (M.save_agent a w).1 a.id ≡ C.agents w a.id)
  pub save_agent_other :
      (a : Agent F) (w : W) (k : String)
      → (a.id == k) ≡ Bool.false
      → C.agents (M.save_agent a w).1 k ≡ C.agents w k
  pub save_agent_frame : (a : Agent F) (w : W) → SameButAgents C w (M.save_agent a w).1
  pub delete_agent_ok :
      (k : String) (w : W)
      → (M.delete_agent k w).0 ≡ ok tt
      → C.agents (M.delete_agent k w).1 k ≡ none
  pub delete_agent_any :
      (k : String) (w : W)
      → (C.agents (M.delete_agent k w).1 k ≡ none)
        ⊎ (C.agents (M.delete_agent k w).1 k ≡ C.agents w k)
  pub delete_agent_other :
      (k j : String) (w : W)
      → (k == j) ≡ Bool.false
      → C.agents (M.delete_agent k w).1 j ≡ C.agents w j
  pub delete_agent_frame : (k : String) (w : W) → SameButAgents C w (M.delete_agent k w).1
