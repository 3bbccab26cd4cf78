-- ===== src/PointerPrefetch/Tests.antt =====
-- The records and the pointer conversion on small states.
use swap_prefetch.Common.{ℕ, ◌+◌, ◌≡◌, ◌≢◌, ◌*◌, ◌-◌, refl, true, false, some, [], ◌∷◌, arith}
use swap_prefetch.RdmaSim.Allocator.{Allocator, remote_base, remote_memory_size}
use swap_prefetch.RdmaSim.Allocator.Correct.{IsHeap}
use swap_prefetch.AddressTranslation.{is_valid_remote_pointer}
use swap_prefetch.AddressTranslation.Tests.{
  one_region, one_region-IsTranslator, is_valid_local_pointer-one_region, convert_local-one_region,
}
use swap_prefetch.PointerPrefetch.{
  Prefetcher, PrefetchRecord, prefetch_failed, prefetch_in_progress, zero_stats,
  find_prefetch_record, cleanup_old_prefetch_records, convert_pointers_for_remote_storage,
  convert_pointers_from_remote_storage, is_prefetched_page_available, sweep, found_running,
  is_running, is_expired,
}
use swap_prefetch.PointerPrefetch.Records.{Distinct, Cleaned, cleanup_old_prefetch_records_lem}
use swap_prefetch.Memory.{PageData, basep}
use swap_prefetch.PointerPrefetch.Conversion.{from_remote-for_remote}

abbrev failed_one : PrefetchRecord
failed_one = record {
  source_va = 0x1000;
  target_va = 0x2000;
  pointer_value = 0x2000;
  remote_addr = remote_base;
  rdma_request_id = 1;
  status = prefetch_failed;
  timestamp = 5;
}

abbrev running_one : PrefetchRecord
running_one = record {
  source_va = 0x1000;
  target_va = 0x3000;
  pointer_value = 0x3000;
  remote_addr = 0;
  rdma_request_id = 2;
  status = prefetch_in_progress;
  timestamp = 6;
}

abbrev two_records : Prefetcher
two_records = record {
  records = failed_one ∷ running_one ∷ [];
  stats = zero_stats;
  initialized = true;
  max_prefetch_distance = 16 * 1024 * 1024;
  pointer_validation_threshold = 0x100000;
}

two_records-Distinct : Distinct two_records.records
unfolding find_prefetch_record
two_records-Distinct = (refl, (refl, tt))

abbrev one_taken : Allocator
one_taken = record {
  blocks =
      record { addr = remote_base; size = 4096; free = false }
      ∷ record { addr = remote_base + 4096; size = remote_memory_size - 4096; free = true }
      ∷ [];
  backed = true;
  connected = true;
  used = 4096;
}

one_taken-IsHeap : IsHeap one_taken
one_taken-IsHeap = record {
  connected = refl;
  tiled = (refl, omega arith, refl, (refl, omega arith, refl, refl));
  merged = ((λ h. cc), ((λ _. refl), tt));
  used = refl;
}

cleanup_old_prefetch_records_lem_example :
    let (s', _) = cleanup_old_prefetch_records 10 two_records one_taken in
    Distinct s'.records
    × ((va : ℕ)
        → Cleaned 10
            (find_prefetch_record va two_records.records)
            (find_prefetch_record va s'.records))
cleanup_old_prefetch_records_lem_example =
    cleanup_old_prefetch_records_lem 10 two_records one_taken two_records-Distinct

from_remote-for_remote_example :
    (q : ℕ) × (convert_pointers_for_remote_storage (some 0x7f00_0000_1008) one_region
      ≡ (true, some q))
    × (q ≢ 0
        → is_valid_remote_pointer q one_region ≡ true
        → convert_pointers_from_remote_storage (some q) one_region ≡ (true, some 0x7f00_0000_1008))
    × (is_valid_remote_pointer q one_region ≡ false
        → convert_pointers_from_remote_storage (some q) one_region ≡ (true, some q))
from_remote-for_remote_example =
    from_remote-for_remote 0x7f00_0000_1008 one_region one_region-IsTranslator
      (λ h. omega (arith, h)) is_valid_local_pointer-one_region convert_local-one_region

abbrev pointer : ℕ
pointer = 0x200000

abbrev current : ℕ
current = 0x300000

available-sweep :
    is_prefetched_page_available 0x3000 (cleanup_old_prefetch_records 10 two_records one_taken).0
    ≡ true
unfolding is_prefetched_page_available cleanup_old_prefetch_records sweep found_running
    find_prefetch_record is_running is_expired
available-sweep = refl

abbrev last_page : PageData
last_page = record {
  va = 0x7f00_0000_1000;
  virtual_offset = 0;
  in_dram = true;
  swapped_out = false;
  pt = basep;
  migrating = false;
  has_reserve = false;
  present = true;
  naccesses = 0;
  reserve = 0;
}

abbrev all_same : ℕ → ℕ
all_same _ = 0x7f00_0000_1008
