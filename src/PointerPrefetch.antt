-- ===== src/PointerPrefetch.antt =====
-- The prefetcher of pointer_prefetch.c: its records, the checks on the pointer at the end of a
-- page, and the conversion of that pointer when a page moves. The static variables are an argument
-- and a result of each operation, and so are the translator and the allocator where they change.
--
-- A page is given by its last eight bytes, the word that holds the pointer; nothing here touches
-- the other bytes.
pub mod Conversion
pub mod Records
pub mod Lifecycle
mod Tests
use swap_prefetch.Common.{
  ℕ, ◌+◌, ◌-◌, ◌*◌, Bool, true, false, not, ◌&&◌, ◌||◌, Option, none, some, List, [], ◌∷◌, ◌==◌,
  ltb, leb, if◌then◌else◌, add64, sub64,
}
use swap_prefetch.Memory.{PageData}
use swap_prefetch.RdmaSim.Allocator.{Allocator, rdma_sim_free}
use swap_prefetch.AddressTranslation.{
  Translator, address_translator_init, address_translator_cleanup, is_valid_local_pointer,
  is_valid_remote_pointer, convert_local_to_remote_pointer, convert_remote_to_local_pointer,
}

-- `prefetch_status_e`
pub data PrefetchStatus : Type 0 where
  prefetch_none prefetch_requested prefetch_in_progress prefetch_completed prefetch_failed :
      PrefetchStatus

-- `prefetch_record_t`
pub record PrefetchRecord : Type 0 where
  pub source_va : ℕ
  pub target_va : ℕ
  pub pointer_value : ℕ
  pub remote_addr : ℕ
  pub rdma_request_id : ℕ
  pub status : PrefetchStatus
  pub timestamp : ℕ

-- `prefetch_stats_t`
pub record PrefetchStats : Type 0 where
  pub total_attempts : ℕ
  pub successful_prefetch : ℕ
  pub failed_prefetch : ℕ
  pub cache_hits : ℕ
  pub invalid_pointers : ℕ
  pub pointer_validations : ℕ

-- the static variables
pub record Prefetcher : Type 0 where
  pub records : List PrefetchRecord
  pub stats : PrefetchStats
  pub initialized : Bool
  pub max_prefetch_distance : ℕ
  pub pointer_validation_threshold : ℕ

abbrev pub zero_stats : PrefetchStats
zero_stats = record {
  total_attempts = 0;
  successful_prefetch = 0;
  failed_prefetch = 0;
  cache_hits = 0;
  invalid_pointers = 0;
  pointer_validations = 0;
}

pub pointer_prefetch_init : Prefetcher → Translator → Prefetcher × Translator
pointer_prefetch_init s t = if s.initialized then (s, t) else (
  record s { stats = zero_stats; records = []; initialized = true },
  address_translator_init t,
)

-- whether a record may hold a remote buffer
pub is_running : PrefetchStatus → Bool
is_running prefetch_in_progress = true
is_running prefetch_completed = true
is_running prefetch_none = false
is_running prefetch_requested = false
is_running prefetch_failed = false

-- the frees of `pointer_prefetch_cleanup`
pub free_running : List PrefetchRecord → Allocator → Allocator
free_running [] a = a
free_running (r ∷ rs) a = free_running rs (
    if is_running r.status && not (r.remote_addr == 0)
    then (rdma_sim_free r.remote_addr a).1
    else a)

pub pointer_prefetch_cleanup :
    Prefetcher → Translator → Allocator → Prefetcher × Translator × Allocator
pointer_prefetch_cleanup s t a = if not s.initialized then (s, t, a) else (
  record s { records = []; initialized = false },
  address_translator_cleanup t,
  free_running s.records a,
)

abbrev pub page_size : ℕ
page_size = 4096

abbrev pub pointer_offset_from_end : ℕ
pointer_offset_from_end = 8

abbrev pub count_invalid : Prefetcher → Prefetcher
count_invalid s = record s {
  stats = record s.stats { invalid_pointers = add64 s.stats.invalid_pointers 1 };
}

-- the checks of `read_page_end_pointer` on a pointer that is not 0
pub usable_pointer : ℕ → Translator → ℕ
usable_pointer raw t =
    if is_valid_remote_pointer raw t
    then (let c = convert_remote_to_local_pointer raw t in
        if c.valid then c.converted_pointer else 0)
    else if is_valid_local_pointer raw t
    then raw
    else 0

-- `word_at` reads eight bytes of memory; no page is NULL.
pub read_page_end_pointer :
    Option PageData → (word_at : ℕ → ℕ) → Translator → Prefetcher → ℕ × Prefetcher
read_page_end_pointer none word_at t s = (0, s)
read_page_end_pointer (some page) word_at t s =
    if page.va == 0 || not page.in_dram
    then (0, s)
    else let raw : ℕ = word_at (add64 page.va (page_size - pointer_offset_from_end)) in
      let counted : Prefetcher = record s {
        stats = record s.stats { pointer_validations = add64 s.stats.pointer_validations 1 };
      } in
      if raw == 0 then (0, counted) else (usable_pointer raw t, counted)

pub distance : ℕ → ℕ → ℕ
distance p current = if ltb current p then sub64 p current else sub64 current p

pub validate_pointer : ℕ → ℕ → Prefetcher → Bool × Prefetcher
validate_pointer p current s =
    if p == 0
    then (false, s)
    else if ltb p s.pointer_validation_threshold
    then (false, count_invalid s)
    else if ltb s.max_prefetch_distance (distance p current)
    then (false, count_invalid s)
    else (true, s)

pub find_prefetch_record : ℕ → List PrefetchRecord → Option PrefetchRecord
find_prefetch_record va [] = none
find_prefetch_record va (r ∷ rs) =
    let rest = find_prefetch_record va rs in if r.target_va == va then some r else rest

-- the record that `add_prefetch_record` writes
pub requested_record : (now source_va target_va pointer_value : ℕ) → PrefetchRecord
requested_record now source_va target_va pointer_value = record {
  source_va = source_va;
  target_va = target_va;
  pointer_value = pointer_value;
  remote_addr = 0;
  rdma_request_id = 0;
  status = prefetch_requested;
  timestamp = now;
}

-- the first record for the address of `new`, overwritten
pub overwrite_record : PrefetchRecord → List PrefetchRecord → List PrefetchRecord
overwrite_record new [] = []
overwrite_record new (r ∷ rs) =
    let rest = overwrite_record new rs in
    if r.target_va == new.target_va then new ∷ rs else r ∷ rest

-- the write of `new`, given what the search for its address found
pub store_record :
    Option PrefetchRecord → (malloc : Bool) → PrefetchRecord → Prefetcher → Bool × Prefetcher
store_record (some r) malloc new s = (true, record s { records = overwrite_record new s.records })
store_record none malloc new s =
    if not malloc then (false, s) else (true, record s { records = new ∷ s.records })

-- `true` is the return value 0; `malloc` says whether a new record is allocated.
pub add_prefetch_record :
    (malloc : Bool) (now source_va target_va pointer_value : ℕ) → Prefetcher → Bool × Prefetcher
add_prefetch_record malloc now source_va target_va pointer_value s =
    store_record (find_prefetch_record target_va s.records) malloc
      (requested_record now source_va target_va pointer_value) s

-- whether a search found a record that holds a page or will hold one
pub found_running : Option PrefetchRecord → Bool
found_running none = false
found_running (some r) = is_running r.status

pub is_prefetched_page_available : ℕ → Prefetcher → Bool
is_prefetched_page_available va s = found_running (find_prefetch_record va s.records)

-- `max_age`, 30 seconds
abbrev pub max_age : ℕ
max_age = 30 * 1000000

-- the tests of `cleanup_old_prefetch_records` on a record
pub is_expired : (now : ℕ) → PrefetchStatus → ℕ → Bool
is_expired now prefetch_failed timestamp = true
is_expired now prefetch_completed timestamp = ltb max_age (sub64 now timestamp)
is_expired now prefetch_requested timestamp = ltb max_age (sub64 now timestamp)
is_expired now prefetch_in_progress timestamp = ltb (max_age * 2) (sub64 now timestamp)
is_expired now prefetch_none timestamp = false

-- the walk of `cleanup_old_prefetch_records`: the records that stay, and the allocator
pub sweep : (now : ℕ) → List PrefetchRecord → Allocator → List PrefetchRecord × Allocator
sweep now [] a = ([], a)
sweep now (r ∷ rs) a =
    let dead : Bool = is_expired now r.status r.timestamp in
    let freed : Allocator =
      if dead && not (r.remote_addr == 0) then (rdma_sim_free r.remote_addr a).1 else a in
    let (kept, after) = sweep now rs freed in (if dead then kept else r ∷ kept, after)

pub cleanup_old_prefetch_records : (now : ℕ) → Prefetcher → Allocator → Prefetcher × Allocator
cleanup_old_prefetch_records now s a =
    let (kept, after) = sweep now s.records a in (record s { records = kept }, after)

-- `true` is the return value 0. The argument is the word at the end of the page, none if the page
-- is NULL.
pub convert_pointers_for_remote_storage : Option ℕ → Translator → Bool × Option ℕ
convert_pointers_for_remote_storage none t = (false, none)
convert_pointers_for_remote_storage (some p) t =
    if p == 0
    then (true, some p)
    else if is_valid_local_pointer p t
    then (let c = convert_local_to_remote_pointer p t in
        if c.valid then (true, some c.converted_pointer) else (false, some 0))
    else (true, some p)

pub convert_pointers_from_remote_storage : Option ℕ → Translator → Bool × Option ℕ
convert_pointers_from_remote_storage none t = (false, none)
convert_pointers_from_remote_storage (some q) t =
    if q == 0
    then (true, some q)
    else if is_valid_remote_pointer q t
    then (let c = convert_remote_to_local_pointer q t in
        if c.valid then (true, some c.converted_pointer) else (false, some 0))
    else (true, some q)
