-- ===== src/Faults/Tests.antt =====
-- Runs of the page fault handlers on a machine with four frames and four places on the storage.
use swap_prefetch.Common.{◌+◌, ◌≡◌, refl, true, false, some, [], ◌∷◌, ◌==◌, if◌then◌else◌, arith}
use swap_prefetch.Memory.{Ptr, null, basep, pure}
use swap_prefetch.System.Example.{Machine, machine, machine-Lawful}
use swap_prefetch.System.Laws.{SameMemory, SameDisk}
use swap_prefetch.System.View.{Abs}
use swap_prefetch.System.Runs.{Runs, Runs-pure}
use swap_prefetch.Disklinux.{disk_active_list, dram_free_list}
use swap_prefetch.Faults.{PrefetchCalls, Pages, handle_missing_fault, handle_first_fault}
use swap_prefetch.Faults.Major.{faulted_in, missing_fault-stale}
use swap_prefetch.Faults.First.{Touchable, touched_first, first_fault-zeros}

-- a prefetcher that never has a page, and a table of pages with the same answer for every address
abbrev no_prefetch : PrefetchCalls (machine true)
no_prefetch = record {
  handle_page_fault_with_prefetch = λ p. pure false;
  prefetch_pointer_of = λ p. pure tt;
  core_try_prefetch = λ a. pure tt;
}

abbrev answering : Ptr → Pages (machine true)
answering p = record {
  find_page = λ a. pure p;
  add_page = λ q. pure tt;
  remove_page = λ q. pure tt;
}

-- The page 20 is on the storage, and 23 is a free frame.
abbrev away : Abs (machine true)
away = record {
  contents =
      λ q. if q == disk_active_list then 20 ∷ [] else if q == dram_free_list then 23 ∷ [] else [];
  info = λ a. record {
    va = if a == 20 then 4096 else 0;
    virtual_offset = if a == 20 then 4096 else 0;
    in_dram = if a == 20 then false else true;
    swapped_out = if a == 20 then true else false;
    pt = basep;
    migrating = false;
    has_reserve = false;
    present = false;
    naccesses = 0;
    reserve = null;
  };
  list = λ a. if a == 20 then disk_active_list else if a == 23 then dram_free_list else null;
  state = record { memory = λ a. a + 5; mapped = λ a. a == 8192; disk = λ o. o + 8197 };
  buffer = some 77;
  shrinkage_running = false;
  prev_faults = (0, 0);
}

missing_fault-stale_example :
    (s : Machine) × Runs
      (handle_missing_fault no_prefetch 1 20)
      away
      tt
      (faulted_in no_prefetch away 20 23 s)
    × (s.mapped 4096 ≡ true)
    × (s.memory 4096 ≡ 77)
    × SameMemory (machine true) 4096 away.state s
    × SameDisk (machine true) away.state s
missing_fault-stale_example =
    missing_fault-stale no_prefetch (machine-Lawful true) away 20 23
      (record {
        nz = ground arith;
        frame_nz = ground arith;
        apart = ground arith;
        listed = refl;
        oldest = refl;
        frame = refl;
        fits = record {
          in_use = record { nz = ground arith; aligned = refl };
          in_dram = refl;
          pt = refl;
          from = refl;
          from_lt = refl;
          to = refl;
          to_lt = refl;
        };
        mapped = refl;
        registered = refl;
      })
      refl refl refl Runs-pure (λ u. Runs-pure) 0

touchable : Touchable (answering null) away 23 12288
touchable = record {
  nz = ground arith;
  oldest = refl;
  unused = refl;
  frame = refl;
  va_nz = ground arith;
  aligned = refl;
}

first_fault-zeros_example :
    (s : Machine) × Runs
      (handle_first_fault (answering null) 1 12288)
      away
      tt
      (touched_first (answering null) away 23 12288 s)
    × (s.mapped 12288 ≡ true)
    × (s.memory 12288 ≡ 0)
    × SameMemory (machine true) 12288 away.state s
    × SameDisk (machine true) away.state s
first_fault-zeros_example =
    first_fault-zeros (answering null) (machine-Lawful true) away 23 12288 touchable refl refl
      (λ u. Runs-pure) (λ u. Runs-pure) 0
