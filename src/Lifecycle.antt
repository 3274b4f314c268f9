-- ===== src/Lifecycle.antt =====
-- kernel/device/lifecycle.cpp over include/uk/registry.hpp: the drivers that the kernel is built
-- with, their initialisation in the order of their dependencies, and their exit.
-- The drivers' own functions are not part of the kernel: they are the parameter DriverCode, and
-- change a world W. A `const char *` is none, when it is null, or its characters; a pointer to a
-- driver's name is none or its address with the name, and a pointer to a node is the node's index.
pub mod Names
pub mod Records
pub mod Build
pub mod Visit
pub mod Steps
pub mod Order
pub mod Runs
pub mod Visited
pub mod Initialise
pub mod Between
pub mod Exit
pub mod Restart
mod Tests
use doom_os.Base.{
  ℕ, zero, suc, ◌+◌, ◌-◌, Bool, true, false, not, ◌&&◌, ◌||◌, List, [], ◌∷◌, ◌++◌, map, Option,
  none, some, get_or, set, length, ltb, ◌==◌, if◌then◌else◌,
}

abbrev pub max_drivers : ℕ
max_drivers = 128

abbrev pub max_registered_capabilities : ℕ
max_registered_capabilities = 256

-- A C string, by its characters before the closing zero.
abbrev pub Name : Type 0
Name = Option (List ℕ)

pub data CapabilityMultiplicity : Type 0 where
  single multiple : CapabilityMultiplicity

pub record DriverId : Type 0 where
  pub address : ℕ
  pub name : Name

pub record CapabilityKey : Type 0 where
  pub name : Name
  pub multiplicity : CapabilityMultiplicity

pub data Error : Type 0 where
  unspecified capacity_exceeded invalid_record duplicate_driver duplicate_driver_entry : Error
  duplicate_driver_exit unknown_driver unknown_driver_dependency : Error
  missing_capability_provider multiple_capability_providers dependency_cycle : Error
  capability_resolve_failed : Error

pub data InitResult : Type 0 where
  ok : InitResult
  err : Error → InitResult

-- The records of the linker's sections; a function is its address.
pub record InitRecord : Type 0 where
  pub driver : Option DriverId
  pub init : Option ℕ

pub record ExitRecord : Type 0 where
  pub driver : Option DriverId
  pub exit : Option ℕ

pub record ProvideRecord : Type 0 where
  pub driver : Option DriverId
  pub capability : Option CapabilityKey
  pub resolve : Option ℕ

pub record RequireDriverRecord : Type 0 where
  pub driver : Option DriverId
  pub dependency_name : Name

pub record RequireCapabilityRecord : Type 0 where
  pub driver : Option DriverId
  pub capability : Option CapabilityKey

pub record Registry : Type 0 where
  pub drivers : List DriverId
  pub init_records : List InitRecord
  pub exit_records : List ExitRecord
  pub provide_records : List ProvideRecord
  pub require_driver_records : List RequireDriverRecord
  pub require_capability_records : List RequireCapabilityRecord

pub data VisitState : Type 0 where
  not_visited visiting visited : VisitState

pub record DriverNode : Type 0 where
  pub id : DriverId
  pub init : Option ℕ
  pub exit : Option ℕ
  pub visit : VisitState
  pub initialized : Bool

abbrev pub no_driver : DriverId
no_driver = record { address = 0; name = none }

abbrev pub new_node : DriverId → DriverNode
new_node id = record { id = id; init = none; exit = none; visit = not_visited; initialized = false }

pub record RegisteredCapability : Type 0 where
  pub key : Option CapabilityKey
  pub driver : DriverId
  pub api : ℕ

-- `lifecycle_state`, with the world that the drivers change. An array with its count is the list
-- of the items that it counts; `initialized` holds the indices of nodes.
pub record Lifecycle (W : Type 0) : Type 0 where
  pub nodes : List DriverNode
  pub initialized : List ℕ
  pub capabilities : List RegisteredCapability
  pub built : Bool
  pub initialized_all : Bool
  pub world : W

-- What the functions of the drivers do. Each returns; it may look up the capabilities that are
-- registered, with `find_capability`, and read and change the world, but not the lifecycle's own
-- state: a driver that calls `init_all` or `exit_all` itself is not modelled.
pub record DriverCode (W : Type 0) : Type 0 where
  pub run_init : ℕ → List RegisteredCapability → W → InitResult × W
  pub run_exit : ℕ → List RegisteredCapability → W → W
  pub run_resolve : ℕ → List RegisteredCapability → W → Option ℕ × W

unfoldable pub same_chars : List ℕ → List ℕ → Bool
same_chars [] [] = true
same_chars [] (_ ∷ _) = false
same_chars (_ ∷ _) [] = false
same_chars (c ∷ cs) (d ∷ ds) = if c == d then same_chars cs ds else false

unfoldable pub string_equal : Name → Name → Bool
string_equal none none = true
string_equal none (some _) = false
string_equal (some _) none = false
string_equal (some cs) (some ds) = same_chars cs ds

abbrev pub is_null {ℓ} : {A : Type ℓ} → Option A → Bool
is_null none = true
is_null (some _) = false

abbrev pub same_capability : CapabilityKey → CapabilityKey → Bool
same_capability a b = string_equal a.name b.name

abbrev pub is_singleton : CapabilityKey → Bool
is_singleton key = elim key.multiplicity [ single ↦ true | multiple ↦ false ]

-- The name behind a pointer to a driver. A null pointer is refused before it is followed.
abbrev pub driver_name : Option DriverId → Name
driver_name none = none
driver_name (some d) = d.name

abbrev pub ids : List DriverNode → List DriverId
ids = map (λ n. n.id)

-- The two `find_node`s, from the index `at` on.
unfoldable pub find_id_from : List DriverId → DriverId → ℕ → Option ℕ
find_id_from [] d at = none
find_id_from (e ∷ es) d at =
    if (e.address == d.address) || string_equal e.name d.name
    then some at
    else find_id_from es d (at + 1)

unfoldable pub find_node_by_id : List DriverId → Option DriverId → Option ℕ
find_node_by_id es none = none
find_node_by_id es (some d) = find_id_from es d 0

unfoldable pub find_name_from : List DriverId → Name → ℕ → Option ℕ
find_name_from [] name at = none
find_name_from (e ∷ es) name at =
    if string_equal e.name name then some at else find_name_from es name (at + 1)

unfoldable pub find_node_by_name : List DriverId → Name → Option ℕ
find_node_by_name es name = if is_null name then none else find_name_from es name 0

-- `record.capability != nullptr && same_capability(*record.capability, key)`
abbrev pub provides : ProvideRecord → CapabilityKey → Bool
provides r key = elim r.capability [ none ↦ false | some k ↦ same_capability k key ]

unfoldable pub provider_record_count : List ProvideRecord → CapabilityKey → ℕ
provider_record_count [] key = 0
provider_record_count (r ∷ rs) key =
    (if provides r key then 1 else 0) + provider_record_count rs key

unfoldable pub validate_provider_count : List ProvideRecord → CapabilityKey → InitResult
validate_provider_count rs key =
    if is_singleton key && ltb 1 (provider_record_count rs key)
    then err multiple_capability_providers
    else ok

-- `find_capability`
unfoldable pub find_capability : List RegisteredCapability → CapabilityKey → Option ℕ
find_capability [] key = none
find_capability (c ∷ cs) key =
    if elim c.key [ none ↦ false | some k ↦ same_capability k key ]
    then some c.api
    else find_capability cs key
