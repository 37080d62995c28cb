-- ===== src/Processes/Table.antt =====
-- What services/gateway/app/main.py and services/compositor/app/main.py have in common: a dictionary
-- of definitions, a dictionary of process handles, and the same guards. Whether a process is alive,
-- the id that the system gives to a new one and whether a signal ends one are parameters of a
-- request; a pipeline builder is one of the section.
use airgap_videowall.Prelude.{
  ℕ, String, Bool, true, false, not, ◌&&◌, Option, none, some, List, if◌then◌else◌, string_eq,
}
use airgap_videowall.Prelude.Dict.{Dict, get, put, pop}

pub record Spec : Type 0 where
  pub argv : List String
  pub pretty : String

-- `ProcHandle`
pub record Handle : Type 0 where
  pub pid : ℕ
  pub spec : Spec

-- A definition: what the client describes, and the two fields that the service sets.
pub record Definition (Body : Type 0) : Type 0 where
  pub id : String
  pub body : Body
  pub running : Bool
  pub pid : Option ℕ

pub record State (Body : Type 0) : Type 0 where
  pub definitions : Dict String (Definition Body)
  pub processes : Dict String Handle

pub data Answer : Type 0 where
  done : Answer
  started : ℕ → String → Answer
  bad_request : Answer
  denied : Answer
  not_found : Answer
  conflict : Answer
  internal_error : Answer

-- `id in _processes and _processes[id].popen.poll() is None`
unfoldable pub is_live : (ℕ → Bool) → Option Handle → Bool
is_live alive none = false
is_live alive (some h) = alive h.pid

module _ {Body : Type 0} (alive : ℕ → Bool) where
  unfoldable pub live : State Body → String → Bool
  unfolding is_live
  live s id = is_live alive (get s.processes id)

  unfoldable pub create_or_update : Definition Body → State Body → State Body × Answer
  create_or_update d s =
      if live s d.id
      then (s, conflict)
      else (record s { definitions = put s.definitions d.id d }, done)

  unfoldable pub delete : String → State Body → State Body × Answer
  delete id s =
      if live s id
      then (s, conflict)
      else (record { definitions = pop s.definitions id; processes = pop s.processes id }, done)

  -- `start_process`, `none` where it raises, and the two dictionaries after it
  unfoldable pub launch :
      String → Definition Body → Spec → Option ℕ → State Body → State Body × Answer
  launch id d spec none s = (s, internal_error)
  launch id d spec (some pid) s = (
    record {
      definitions = put s.definitions id (record d { running = true; pid = some pid });
      processes = put s.processes id (record { pid = pid; spec = spec });
    },
    started pid spec.pretty,
  )

  unfoldable pub build_and_launch :
      String → Definition Body → Option Spec → Option ℕ → State Body → State Body × Answer
  unfolding launch
  build_and_launch id d none spawned s = (s, bad_request)
  build_and_launch id d (some spec) spawned s = launch id d spec spawned s

  unfoldable pub start_found :
      (Body → Option Spec)
      → String
      → Option (Definition Body)
      → Option ℕ
      → State Body
      → State Body × Answer
  unfolding build_and_launch
  start_found build id none spawned s = (s, not_found)
  start_found build id (some d) spawned s =
      if live s id then (s, conflict) else build_and_launch id d (build d.body) spawned s

  unfoldable pub start : (Body → Option Spec) → String → Option ℕ → State Body → State Body × Answer
  unfolding start_found
  start build id spawned s = start_found build id (get s.definitions id) spawned s

  unfoldable pub mark_stopped :
      String
      → Option (Definition Body)
      → Dict String (Definition Body)
      → Dict String (Definition Body)
  mark_stopped id none ds = ds
  mark_stopped id (some d) ds = put ds id (record d { running = false; pid = none })

  -- `stop_process` returns at once if the process has ended; else it waits for the signals to end
  -- it, and raises if they do not
  unfoldable pub stop_found : String → Option Handle → Bool → State Body → State Body × Answer
  unfolding mark_stopped
  stop_found id none ends s = (s, not_found)
  stop_found id (some h) ends s = if alive h.pid && not ends then (s, internal_error) else (
    record {
      definitions = mark_stopped id (get s.definitions id) s.definitions;
      processes = pop s.processes id;
    },
    done,
  )

  unfoldable pub stop : String → Bool → State Body → State Body × Answer
  unfolding stop_found
  stop id ends s = stop_found id (get s.processes id) ends s

-- The four requests: a new process's id is `none` where the system gives none, and the last
-- argument of a stop says whether the signals end the process.
pub data Request (Body : Type 0) : Type 0 where
  create_request : Definition Body → Request Body
  delete_request : String → Request Body
  start_request : String → Option ℕ → Request Body
  stop_request : String → Bool → Request Body

unfoldable pub step :
    {Body : Type 0}
    → (Body → Option Spec)
    → (ℕ → Bool)
    → Request Body
    → State Body
    → State Body × Answer
unfolding create_or_update delete start stop
step build alive (create_request d) s = create_or_update alive d s
step build alive (delete_request id) s = delete alive id s
step build alive (start_request id spawned) s = start alive build id spawned s
step build alive (stop_request id ends) s = stop alive id ends s
