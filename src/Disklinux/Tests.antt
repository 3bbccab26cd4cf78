-- ===== src/Disklinux/Tests.antt =====
-- Runs of the policy on a machine with four frames and four places on the storage.
use swap_prefetch.Common.{
  ℕ, ◌+◌, ◌||◌, refl, Bool, true, false, none, some, [], ◌∷◌, ◌==◌, if◌then◌else◌, arith,
}
use swap_prefetch.Memory.{Ptr, null, PageData, basep}
use swap_prefetch.Core.Up.{CanComeUp}
use swap_prefetch.System.Example.{Machine, machine, machine-Lawful}
use swap_prefetch.System.Laws.{WentDown}
use swap_prefetch.System.View.{Abs}
use swap_prefetch.System.Runs.{Runs}
use swap_prefetch.Disklinux.{
  evict, active_list, disk_active_list, disk_free_list, dram_free_list, disk_reserve_list,
}
use swap_prefetch.Disklinux.Victim.{Evictable, evicted_with, evict-Reserved}
use swap_prefetch.Disklinux.Vector.{evict_vector}
use swap_prefetch.Disklinux.Vector.Single.{stranded_at, evict_vector-Reserved}
use swap_prefetch.Disklinux.Victim.{Reserved}

-- a page of that address and place
abbrev pub page_at :
    (va offset : ℕ) (in_dram swapped_out has_reserve : Bool) (reserve : Ptr) → PageData
page_at va offset in_dram swapped_out has_reserve reserve = record {
  va = va;
  virtual_offset = offset;
  in_dram = in_dram;
  swapped_out = swapped_out;
  pt = basep;
  migrating = false;
  has_reserve = has_reserve;
  present = false;
  naccesses = 0;
  reserve = reserve;
}

abbrev pub memory_of : Machine
memory_of = record { memory = λ a. a + 5; mapped = λ a. a == 8192; disk = λ o. o + 8197 }

-- The page 20 is in memory, with the place of 21 kept for it; 22 is a free place.
abbrev pub busy : (has_reserve : Bool) → Abs (machine false)
busy b = record {
  contents =
      λ q. if q == disk_reserve_list then 21 ∷ [] else if q == disk_free_list then 22 ∷ [] else [];
  info = λ a.
      if a == 20
      then page_at 8192 4096 true false b 21
      else if a == 21
      then page_at 0 0 false true true 20
      else page_at 0 8192 false true false 0;
  list = λ a. if a == 21 then disk_reserve_list else if a == 22 then disk_free_list else null;
  state = memory_of;
  buffer = none;
  shrinkage_running = false;
  prev_faults = (0, 0);
}

busy-Evictable : (b : Bool) → Evictable (busy b) 20
busy-Evictable b = record {
  nz = ground arith;
  loose = refl;
  in_use = record { nz = ground arith; aligned = refl };
  in_dram = refl;
  swapped_out = refl;
  pt = refl;
  frame = (refl, refl);
  mapped = refl;
  registered = refl;
}

evict-Reserved_example :
    (s : Machine) × Runs (evict 20) (busy true) tt (evicted_with (busy true) 20 s)
    × WentDown (machine false) false 8192 0 memory_of s
evict-Reserved_example =
    evict-Reserved (machine-Lawful false) (busy true) 20 (busy-Evictable true) (record {
      has_reserve = refl;
      nz = ground arith;
      apart = ground arith;
      back = refl;
      listed = refl;
      place = (refl, refl);
    })

-- The page 20 is on the storage, and 23 is a free frame.
abbrev pub away : Abs (machine true)
away = record {
  contents =
      λ q. if q == disk_active_list then 20 ∷ [] else if q == dram_free_list then 23 ∷ [] else [];
  info =
      λ a. if a == 20 then page_at 4096 4096 false true false 0 else page_at 0 0 true false false 0;
  list = λ a. if a == 20 then disk_active_list else if a == 23 then dram_free_list else null;
  state = memory_of;
  buffer = some 77;
  shrinkage_running = false;
  prev_faults = (0, 0);
}

away-CanComeUp : CanComeUp (machine true) (page_at 4096 4096 false true false 0) 0
away-CanComeUp = record {
  in_use = record { nz = ground arith; aligned = refl };
  in_dram = refl;
  pt = refl;
  from = refl;
  from_lt = refl;
  to = refl;
  to_lt = refl;
}

busy-Reserved : Reserved (busy true) 20
busy-Reserved = record {
  has_reserve = refl;
  nz = ground arith;
  apart = ground arith;
  back = refl;
  listed = refl;
  place = (refl, refl);
}

-- The page 20 is on the active list, before 24.
abbrev pub resident : Abs (machine false)
resident = record (busy true) {
  contents = λ q. if q == active_list then 20 ∷ 24 ∷ [] else (busy true).contents q;
  list = λ a. if a == 20 || a == 24 then active_list else (busy true).list a;
}

evict_vector-Reserved_example :
    (s : Machine) × Runs
      (evict_vector (20 ∷ []))
      (busy true)
      tt
      (stranded_at (machine-Lawful false) (busy true) 20 (busy-Evictable true) busy-Reserved s)
    × WentDown (machine false) false 8192 0 memory_of s
evict_vector-Reserved_example =
    evict_vector-Reserved (machine-Lawful false) (busy true) 20 (busy-Evictable true) busy-Reserved
