-- ===== src/AddressTranslation.antt =====
-- The translator between local and remote addresses, address_translation.c. `global_translator` is
-- an argument and a result of each operation, its list of regions is a value.
pub mod Lookup
pub mod Tests
pub mod Regions
pub mod Register
pub mod Update
use swap_prefetch.Common.{
  ℕ, ◌+◌, Bool, true, false, not, ◌&&◌, Option, none, some, List, [], ◌∷◌, ◌==◌, ltb, leb,
  if◌then◌else◌, add64, sub64,
}
use swap_prefetch.RdmaSim.Errno.{Errno, enoent, enotconn, enomem, Result, ok, err}

-- `address_region_t`
pub record Region : Type 0 where
  pub local_base : ℕ
  pub local_end : ℕ
  pub remote_base : ℕ
  pub size : ℕ
  pub active : Bool

-- `address_translator_t`
pub record Translator : Type 0 where
  pub regions : List Region
  pub local_heap_base : ℕ
  pub local_heap_end : ℕ
  pub remote_heap_base : ℕ
  pub remote_heap_end : ℕ
  pub initialized : Bool

-- `pointer_conversion_result_t`
pub record Conversion : Type 0 where
  pub converted_pointer : ℕ
  pub valid : Bool
  pub region : Option Region

pub address_translator_init : Translator → Translator
address_translator_init t = if t.initialized then t else record {
  regions = [];
  local_heap_base = 0x7f00_0000_0000;
  local_heap_end = 0x7fff_ffff_ffff_ffff;
  remote_heap_base = 0x20_0000_0000;
  remote_heap_end = 0x3f_ffff_ffff;
  initialized = true;
}

pub address_translator_cleanup : Translator → Translator
address_translator_cleanup t =
    if not t.initialized then t else record t { regions = []; initialized = false }

-- the region that a registration writes
pub make_region : ℕ → ℕ → ℕ → Region
make_region local_base size remote_base = record {
  local_base = local_base;
  local_end = add64 local_base size;
  remote_base = remote_base;
  size = size;
  active = true;
}

-- The walk of `register_address_region`: the list in which the first region with the base of `new`
-- is overwritten, if there is one.
pub update_region : Region → List Region → Option (List Region)
update_region new [] = none
update_region new (r ∷ rs) =
    let rest = update_region new rs in
    if r.local_base == new.local_base
    then some (new ∷ rs)
    else elim rest [ none ↦ none | some l ↦ some (r ∷ l) ]

-- `malloc` says whether the new region is allocated.
pub register_address_region :
    (malloc : Bool) → ℕ → ℕ → ℕ → Translator → Result (Unit {0}) × Translator
register_address_region malloc local_base size remote_base t =
    if not t.initialized
    then (err enotconn, t)
    else elim (update_region (make_region local_base size remote_base) t.regions) [
      | some l ↦ (ok tt, record t { regions = l })
      | none ↦
          if not malloc
          then (err enomem, t)
          else (ok tt, record t { regions = make_region local_base size remote_base ∷ t.regions })
    ]

-- the walk of `unregister_address_region`
pub remove_region : ℕ → List Region → Option (List Region)
remove_region local_base [] = none
remove_region local_base (r ∷ rs) =
    let rest = remove_region local_base rs in
    if r.local_base == local_base
    then some rs
    else elim rest [ none ↦ none | some l ↦ some (r ∷ l) ]

pub unregister_address_region : ℕ → Translator → Result (Unit {0}) × Translator
unregister_address_region local_base t =
    if not t.initialized then (err enotconn, t) else elim (remove_region local_base t.regions) [
      | some l ↦ (ok tt, record t { regions = l })
      | none ↦ (err enoent, t)
    ]

-- the tests of the two conversions on a region
pub covers_local : ℕ → Region → Bool
covers_local p r = r.active && leb r.local_base p && ltb p r.local_end

pub covers_remote : ℕ → Region → Bool
covers_remote p r = r.active && leb r.remote_base p && ltb p (add64 r.remote_base r.size)

-- the walk of the conversions, to the first region that passes the test
pub find_region : (Region → Bool) → List Region → Option Region
find_region test [] = none
find_region test (r ∷ rs) = let rest = find_region test rs in if test r then some r else rest

abbrev pub not_converted : Conversion
not_converted = record { converted_pointer = 0; valid = false; region = none }

abbrev pub null_converted : Conversion
null_converted = record { converted_pointer = 0; valid = true; region = none }

pub convert_local_to_remote_pointer : ℕ → Translator → Conversion
convert_local_to_remote_pointer p t =
    if p == 0
    then null_converted
    else if not t.initialized
    then not_converted
    else elim (find_region (covers_local p) t.regions) [
      | none ↦ not_converted
      | some r ↦ record {
        converted_pointer = add64 r.remote_base (sub64 p r.local_base);
        valid = true;
        region = some r;
      }
    ]

pub convert_remote_to_local_pointer : ℕ → Translator → Conversion
convert_remote_to_local_pointer p t =
    if p == 0
    then null_converted
    else if not t.initialized
    then not_converted
    else elim (find_region (covers_remote p) t.regions) [
      | none ↦ not_converted
      | some r ↦ record {
        converted_pointer = add64 r.local_base (sub64 p r.remote_base);
        valid = true;
        region = some r;
      }
    ]

pub is_valid_local_pointer : ℕ → Translator → Bool
is_valid_local_pointer p t =
    if p == 0
    then true
    else if not t.initialized
    then false
    else leb t.local_heap_base p && ltb p t.local_heap_end

pub is_valid_remote_pointer : ℕ → Translator → Bool
is_valid_remote_pointer p t =
    if p == 0
    then true
    else if not t.initialized
    then false
    else leb t.remote_heap_base p && ltb p t.remote_heap_end
