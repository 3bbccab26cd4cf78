-- ===== src/Disklinux/Reclaim/Tests.antt =====
-- Runs of the ageing of pages and of the search for a frame.
use swap_prefetch.Common.{
  ℕ, ◌≤◌, ◌<◌, length, refl, true, false, none, [], ◌∷◌, ◌==◌, if◌then◌else◌, arith,
}
use swap_prefetch.Memory.{null}
use swap_prefetch.System.{SystemState}
use swap_prefetch.System.Example.{Machine, machine, machine-Lawful}
use swap_prefetch.System.Laws.{WentDown}
use swap_prefetch.System.View.{Abs, View}
use swap_prefetch.System.Runs.{Runs, Runs-next, Runs-enqueue}
use swap_prefetch.Disklinux.{inactive_list}
use swap_prefetch.Disklinux.Lists.{queued}
use swap_prefetch.Disklinux.Reclaim.{shrink_active_list, shrink_inactive_list}
use swap_prefetch.Disklinux.Reclaim.Active.{demoted, shrink_active_list-demoted}
use swap_prefetch.Disklinux.Reclaim.Counts.{Usable, Shrunk}
use swap_prefetch.Disklinux.Reclaim.Inactive.{shrink_inactive_list-Shrunk}
use swap_prefetch.Disklinux.Reclaim.Frame.{evicted_for, searched, fetch_free-evicts}
use swap_prefetch.Disklinux.Reclaim.{fetch_free_asynch}
use swap_prefetch.Disklinux.{eviction_list}
use swap_prefetch.System.View.{put-here, put-there}
use swap_prefetch.Disklinux.Reclaim.{direct_allocate_page_asynch}
use swap_prefetch.Disklinux.Reclaim.Direct.{Kept, direct_allocate_page_asynch-Kept}
use swap_prefetch.Disklinux.Tests.{page_at, memory_of, busy, resident}

shrink_active_list-demoted_example :
    Runs
      (shrink_active_list 1)
      resident
      1
      (record (demoted 1 (record resident { shrinkage_running = true })) {
        shrinkage_running = false;
      })
shrink_active_list-demoted_example = shrink_active_list-demoted resident 1 (ground arith)

-- a state in which nothing is on a list, and the one in which the page 20 is inactive
abbrev empty : Abs (machine true)
empty = record {
  contents = λ q. [];
  info = λ a. page_at 8192 4096 true false false 0;
  list = λ a. null;
  state = memory_of;
  buffer = none;
  shrinkage_running = false;
  prev_faults = (0, 0);
}

abbrev empty_world : SystemState (machine true)
empty_world = record {
  mem = record {
    page = λ a. record {
      info = page_at 8192 4096 true false false 0;
      next = null;
      prev = null;
      list = null;
    };
    fifo = λ q. record { first = null; last = null; numentries = 0 };
  };
  state = memory_of;
  buffer = none;
  shrinkage_running = false;
  prev_faults = (0, 0);
  stats = record {
    migrations_up = 0;
    migrations_down = 0;
    bytes_migrated = 0;
    migration_waits = 0;
    first_faults_handled = 0;
    major_faults_handled = 0;
    pages_allocated = 0;
    pages_freed = 0;
  };
}

empty-View : View empty_world empty
empty-View = record {
  mem = record {
    queues = record {
      queue = λ q qz. record { chain = tt; first = refl; last = refl; numentries = refl };
      listed = λ p pz on. absurd (on refl);
      loose = λ p pz off. refl;
    };
    info = λ a az. refl;
    list = λ a az. refl;
  };
  state = refl;
  buffer = refl;
  shrinkage_running = refl;
  prev_faults = refl;
}

inactive_world : (w : SystemState (machine true)) × View w (queued inactive_list 20 empty)
inactive_world = Runs-next (Runs-enqueue (ground arith) (ground arith) refl) empty_world empty-View

inactive-Usable : Usable (queued inactive_list 20 empty)
inactive-Usable a on = (record { nz = ground arith; aligned = refl }, refl)

shrink_inactive_list-Shrunk_example :
    (n : ℕ) × (v' : Abs (machine true)) × Runs
      (shrink_inactive_list 32)
      (queued inactive_list 20 empty)
      n
      (record v' { shrinkage_running = false })
    × (n ≤ length ((queued inactive_list 20 empty).contents inactive_list))
    × (0 < 32 → n ≤ 32)
    × Shrunk (queued inactive_list 20 empty) 0 n v'
shrink_inactive_list-Shrunk_example =
    shrink_inactive_list-Shrunk (machine-Lawful true) (queued inactive_list 20 empty)
      inactive_world.0 inactive_world.1 inactive-Usable 32

direct_allocate_page_asynch-Kept_example :
    (n : ℕ) × (v' : Abs (machine true)) × Runs
      (direct_allocate_page_asynch 32 0)
      (queued inactive_list 20 empty)
      n
      v'
    × Kept (queued inactive_list 20 empty) v'
direct_allocate_page_asynch-Kept_example =
    direct_allocate_page_asynch-Kept (machine-Lawful true) (queued inactive_list 20 empty)
      inactive_world.0 inactive_world.1 inactive-Usable 32 0

-- The page 20 is to be evicted, no frame is free, and another thread scans the lists.
abbrev full : Abs (machine false)
full = record (busy true) {
  contents = λ q. if q == eviction_list then 20 ∷ [] else (busy true).contents q;
  list = λ a. if a == 20 then eviction_list else (busy true).list a;
  shrinkage_running = true;
}

fetch_free-evicts_example :
    (s : Machine) × Runs
      (fetch_free_asynch 1)
      full
      21
      (evicted_for (machine-Lawful false) (searched (machine-Lawful false) full 20) 20 s)
    × WentDown (machine false) false 8192 0 memory_of s
fetch_free-evicts_example =
    fetch_free-evicts (machine-Lawful false) full 20 refl refl refl
      (record {
        nz = ground arith;
        loose = put-here _ _ _;
        in_use = record { nz = ground arith; aligned = refl };
        in_dram = refl;
        swapped_out = refl;
        pt = refl;
        frame = (refl, refl);
        mapped = refl;
        registered = refl;
      })
      (record {
        has_reserve = refl;
        nz = ground arith;
        apart = ground arith;
        back = refl;
        listed = put-there _ _ (ground arith) (put-there _ _ (ground arith) refl);
        place = (refl, refl);
      })
      0
