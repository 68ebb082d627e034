-- ===== src/Store/Registry.antt =====
-- internal/store: what the store promises of agents, as two maps, apart from any table. A call that the
-- driver fails changes nothing. Times are kept in whole seconds.
pub mod Queries
pub mod Refinement
use rmm.Base.{
  ℕ, ◌*◌, ◌/◌, List, [], ◌∷◌, Bytes, text_eq, if◌then◌else◌, Bool, true, false, ◌||◌, Option, none,
  some,
}
use mathlib.Core.Option
use rmm.Store.{AgentRecord, Call}
use rmm.Store.Sqlite.{is_some}
use rmm.Store.Lookup.{in_seconds}
use rmm.Store.History.{Operation, creates_agent, sees_agent, deletes_agent}

-- The agents by their ID, and by the hash of their credential.
pub record Registry : Type 0 where
  pub by_id : Bytes → Option AgentRecord
  pub by_credential : Bytes → Option AgentRecord

abbrev pub no_agents : Registry
no_agents = record { by_id = λ id. none; by_credential = λ hash. none }

abbrev pub is_new : AgentRecord → Registry → Bool
is_new a reg =
    if is_some (reg.by_id a.id) || is_some (reg.by_credential a.credential_hash)
    then false
    else true

abbrev pub add : AgentRecord → Registry → Registry
add a reg = record {
  by_id = λ id. if text_eq a.id id then some (in_seconds a) else reg.by_id id;
  by_credential = λ hash.
      if text_eq a.credential_hash hash then some (in_seconds a) else reg.by_credential hash;
}

-- The agent with that ID, at its new time.
abbrev pub seen : Bytes → ℕ → AgentRecord → AgentRecord
seen id t a =
    if text_eq a.id id then record a { last_seen = t / 1_000_000_000 * 1_000_000_000 } else a

abbrev pub see : Bytes → ℕ → Registry → Registry
see id t reg = record {
  by_id = λ j. Option.map (seen id t) (reg.by_id j);
  by_credential = λ hash. Option.map (seen id t) (reg.by_credential hash);
}

abbrev pub unless_id : Bytes → Option AgentRecord → Option AgentRecord
unless_id id none = none
unless_id id (some a) = if text_eq a.id id then none else some a

abbrev pub remove : Bytes → Registry → Registry
remove id reg = record {
  by_id = λ j. unless_id id (reg.by_id j);
  by_credential = λ hash. unless_id id (reg.by_credential hash);
}

unfoldable pub act : Registry → Call × Operation → Registry
act reg (call, creates_agent a) =
    if call.fails 0 then reg else if is_new a reg then add a reg else reg
act reg (call, sees_agent id t) = if call.fails 0 then reg else see id t reg
act reg (call, deletes_agent id) = if call.fails 0 then reg else remove id reg
act reg (call, other) = reg

unfoldable pub act_all : Registry → List (Call × Operation) → Registry
unfolding act
act_all reg [] = reg
act_all reg (c ∷ cs) = act_all (act reg c) cs
