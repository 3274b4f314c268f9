-- ===== src/Lifecycle/Records.antt =====
-- `build_registry` of kernel/device/lifecycle.cpp: the nodes, and the checks of the records.
use doom_os.Base.{
  ℕ, Bool, true, false, ◌||◌, not, List, [], ◌∷◌, ◌++◌, Option, none, some, get_or, set, length,
  ◌==◌, if◌then◌else◌,
}
use doom_os.Lifecycle.{
  Name, DriverId, CapabilityKey, Error, capacity_exceeded, invalid_record, duplicate_driver,
  duplicate_driver_entry, duplicate_driver_exit, unknown_driver, unknown_driver_dependency,
  missing_capability_provider, InitResult, ok, err, InitRecord, ExitRecord, ProvideRecord,
  RequireDriverRecord, RequireCapabilityRecord, Registry, DriverNode, no_driver, new_node,
  Lifecycle, is_null, ids, find_node_by_id, find_node_by_name, provider_record_count,
  validate_provider_count, max_drivers,
}

abbrev pub node_at : List DriverNode → ℕ → DriverNode
node_at nodes i = get_or nodes i (new_node no_driver)

-- A check, and the nodes that a step of the build leaves; an error keeps what was done.
infixl 5 ◌>>=◌ ◌>>◌
abbrev pub ◌>>=◌ :
    InitResult × List DriverNode
    → (List DriverNode → InitResult × List DriverNode)
    → InitResult × List DriverNode
◌>>=◌ (ok, ns) f = f ns
◌>>=◌ (err e, ns) f = (err e, ns)

abbrev pub ◌>>◌ : InitResult → InitResult → InitResult
ok >> r = r
err e >> r = err e

abbrev pub guard : Bool → Error → InitResult
guard true e = ok
guard false e = err e

unfoldable pub add_driver : List DriverNode → DriverId → InitResult × List DriverNode
add_driver nodes id =
    if is_null id.name
    then (err invalid_record, nodes)
    else if not (is_null (find_node_by_name (ids nodes) id.name))
    then (err duplicate_driver, nodes)
    else if length nodes == max_drivers
    then (err capacity_exceeded, nodes)
    else (ok, nodes ++ new_node id ∷ [])

unfoldable pub add_drivers : List DriverNode → List DriverId → InitResult × List DriverNode
add_drivers nodes [] = (ok, nodes)
add_drivers nodes (d ∷ ds) = add_driver nodes d >>= λ ns. add_drivers ns ds

-- One round of `attach_init_records`, at the node that `find_node` found.
abbrev pub attach_init_at : List DriverNode → Option ℕ → Option ℕ → InitResult × List DriverNode
attach_init_at nodes init none = (err unknown_driver, nodes)
attach_init_at nodes init (some i) =
    if not (is_null (node_at nodes i).init)
    then (err duplicate_driver_entry, nodes)
    else (ok, set nodes i (record (node_at nodes i) { init = init }))

unfoldable pub attach_init : List DriverNode → InitRecord → InitResult × List DriverNode
attach_init nodes r =
    if is_null r.driver || is_null r.init
    then (err invalid_record, nodes)
    else attach_init_at nodes r.init (find_node_by_id (ids nodes) r.driver)

unfoldable pub attach_init_records :
    List DriverNode → List InitRecord → InitResult × List DriverNode
attach_init_records nodes [] = (ok, nodes)
attach_init_records nodes (r ∷ rs) = attach_init nodes r >>= λ ns. attach_init_records ns rs

abbrev pub attach_exit_at : List DriverNode → Option ℕ → Option ℕ → InitResult × List DriverNode
attach_exit_at nodes exit none = (err unknown_driver, nodes)
attach_exit_at nodes exit (some i) =
    if not (is_null (node_at nodes i).exit)
    then (err duplicate_driver_exit, nodes)
    else (ok, set nodes i (record (node_at nodes i) { exit = exit }))

unfoldable pub attach_exit : List DriverNode → ExitRecord → InitResult × List DriverNode
attach_exit nodes r =
    if is_null r.driver || is_null r.exit
    then (err invalid_record, nodes)
    else attach_exit_at nodes r.exit (find_node_by_id (ids nodes) r.driver)

unfoldable pub attach_exit_records :
    List DriverNode → List ExitRecord → InitResult × List DriverNode
attach_exit_records nodes [] = (ok, nodes)
attach_exit_records nodes (r ∷ rs) = attach_exit nodes r >>= λ ns. attach_exit_records ns rs

-- The checks look at the nodes' names alone, `es`.
unfoldable pub validate_driver_dependency : List DriverId → RequireDriverRecord → InitResult
validate_driver_dependency es r =
    guard (not (is_null r.driver || is_null r.dependency_name)) invalid_record
    >> guard (not (is_null (find_node_by_id es r.driver))) unknown_driver
    >> guard (not (is_null (find_node_by_name es r.dependency_name))) unknown_driver_dependency

abbrev pub key_name : Option CapabilityKey → Name
key_name none = none
key_name (some k) = k.name

-- `validate_provider_count(*capability)`, behind the check for null.
abbrev pub validate_key_count : List ProvideRecord → Option CapabilityKey → InitResult
validate_key_count ps none = ok
validate_key_count ps (some k) = validate_provider_count ps k

abbrev pub key_provider_count : List ProvideRecord → Option CapabilityKey → ℕ
key_provider_count ps none = 0
key_provider_count ps (some k) = provider_record_count ps k

unfoldable pub validate_capability_dependency :
    List DriverId → List ProvideRecord → RequireCapabilityRecord → InitResult
validate_capability_dependency es ps r =
    guard (not (is_null r.driver || is_null (key_name r.capability))) invalid_record
    >> guard (not (is_null (find_node_by_id es r.driver))) unknown_driver
    >> validate_key_count ps r.capability
    >> guard (not (key_provider_count ps r.capability == 0)) missing_capability_provider

unfoldable pub validate_provider : List DriverId → List ProvideRecord → ProvideRecord → InitResult
validate_provider es ps r =
    guard (not (is_null r.driver || (is_null (key_name r.capability) || is_null r.resolve)))
      invalid_record
    >> guard (not (is_null (find_node_by_id es r.driver))) unknown_driver
    >> validate_key_count ps r.capability

-- A `for` loop of checks, which ends at the first that fails.
abbrev pub for_each : {A : Type 0} → (A → InitResult) → List A → InitResult
for_each check [] = ok
for_each check (a ∷ as') = check a >> for_each check as'

unfoldable pub validate_provider_records : List DriverId → Registry → InitResult
validate_provider_records es reg =
    for_each (validate_provider es reg.provide_records) reg.provide_records

unfoldable pub validate_dependency_records : List DriverId → Registry → InitResult
validate_dependency_records es reg =
    for_each (validate_driver_dependency es) reg.require_driver_records
    >> for_each (validate_capability_dependency es reg.provide_records)
        reg.require_capability_records

-- The nodes of `build_registry`, up to the checks.
unfoldable pub build_nodes : Registry → InitResult × List DriverNode
build_nodes reg =
    add_drivers [] reg.drivers
    >>= (λ ns. attach_init_records ns reg.init_records)
    >>= (λ ns. attach_exit_records ns reg.exit_records)
    >>= (λ ns. (validate_provider_records (ids ns) reg, ns))
    >>= (λ ns. (validate_dependency_records (ids ns) reg, ns))

-- `build_registry`: `m_state` starts anew, but for the world.
unfoldable pub build_registry : {W : Type 0} → Registry → Lifecycle W → InitResult × Lifecycle W
build_registry reg s =
    let (r, ns) = build_nodes reg in
    if s.built then (ok, s) else (
      r,
      record {
        nodes = ns;
        initialized = [];
        capabilities = [];
        built = elim r [ ok ↦ true | err _ ↦ false ];
        initialized_all = false;
        world = s.world;
      },
    )
