-- ===== src/System.antt =====
-- The state that the paging core (core.c) and a policy work on: the page descriptors and lists, and
-- the memory, page tables and swap storage of the machine, which they reach through the kernel and
-- the storage back end only.
pub mod View
pub mod Runs
pub mod Laws
pub mod Example
use swap_prefetch.Common.{ℕ, Bool, Option, none, some, ◌==◌, if◌then◌else◌}
use swap_prefetch.Memory.{Ptr, Mem, Act, Cmd, PageData, UserPage, update}

-- What this part calls: the kernel, and the storage back end by `write_page` and `read_page`. An
-- ioctl that fails (`none`) makes the program stop. Pages are given by their address, places in the
-- swap storage by their offset.
pub record Platform : Type 1 where
  -- what a page holds, and the state of machine and storage
  pub Content : Type 0
  pub State : Type 0
  -- `dramsize` and `disksize`
  pub dramsize : ℕ
  pub disksize : ℕ
  -- the page of zeros that a first touch maps, `page_cache`
  pub zeros : Content
  -- what the memory at an address holds, whether a page is mapped there, and whether the address
  -- lies in a range registered with userfaultfd
  pub memory : ℕ → State → Content
  pub mapped : ℕ → State → Bool
  pub registered : ℕ → State → Bool
  -- what the storage holds at an offset
  pub disk : ℕ → State → Content
  -- the bits of `pt_get_bits`
  pub accessed : ℕ → State → Bool
  pub dirty : ℕ → State → Bool
  -- UFFDIO_COPY, madvise(MADV_DONTNEED), UFFDIO_WRITEPROTECT (with and without
  -- UFFDIO_WRITEPROTECT_MODE_WP) and UFFDIO_CLEAR_FLAG
  pub copy_in : ℕ → Content → State → Option State
  pub drop : ℕ → State → Option State
  pub protect : ℕ → State → Option State
  pub unprotect : ℕ → State → Option State
  pub clear_accessed : ℕ → State → Option State
  -- `write_page`, whose result `extmem_disk_write` ignores, and `read_page` with what the buffer
  -- held before: a read that fails need not fill it
  pub disk_write : ℕ → Content → State → State
  pub disk_read : ℕ → Content → State → Content × State

-- the counters of core.c
pub record Stats : Type 0 where
  pub migrations_up : ℕ
  pub migrations_down : ℕ
  pub bytes_migrated : ℕ
  pub migration_waits : ℕ
  pub first_faults_handled : ℕ
  pub major_faults_handled : ℕ
  pub pages_allocated : ℕ
  pub pages_freed : ℕ

-- `buffer` is what the thread's `buffer_space` holds, once `buffer_allocated` is set, and
-- `prev_faults` its `prev_fault_1` and `prev_fault_2`.
pub record SystemState (P : Platform) : Type 0 where
  pub mem : Mem
  pub state : P.State
  pub buffer : Option P.Content
  pub shrinkage_running : Bool
  pub prev_faults : ℕ × ℕ
  pub stats : Stats

abbrev pub Sys : Platform → Type 0 → Type 0
Sys P A = Act (SystemState P) A

infixl 5 ◌>>=◌ ◌>>◌
unfoldable pub ◌>>=◌ : {P : Platform} {A B : Type 0} → Sys P A → (A → Sys P B) → Sys P B
c >>= k = λ w. elim (c w) [ none ↦ none | some (a, w') ↦ k a w' ]

abbrev pub ◌>>◌ : {P : Platform} {A B : Type 0} → Sys P A → Sys P B → Sys P B
c >> k = c >>= λ _. k

module _ {P : Platform} where
  -- a command on the descriptors and lists; it does not see the machine
  unfoldable pub on_mem : {A : Type 0} → Cmd A → Sys P A
  on_mem c w = elim (c w.mem) [ none ↦ none | some (a, m) ↦ some (a, record w { mem = m }) ]

  -- reads of a descriptor: its data, and the list it names
  unfoldable pub info_of : Ptr → Sys P PageData
  info_of p w = if p == 0 then none else some ((w.mem.page p).info, w)

  unfoldable pub list_of : Ptr → Sys P Ptr
  list_of p w = if p == 0 then none else some ((w.mem.page p).list, w)

  unfoldable pub numentries : Ptr → Sys P ℕ
  numentries q w = if q == 0 then none else some ((w.mem.fifo q).numentries, w)

  -- a write to the data of a descriptor
  unfoldable pub set_info : Ptr → (PageData → PageData) → Sys P (Unit {0})
  set_info p g = on_mem (update p (λ c. record c { info = g c.info }))

  -- a call of the kernel, which must succeed
  unfoldable pub kernel : (P.State → Option P.State) → Sys P (Unit {0})
  kernel f w = elim (f w.state) [ none ↦ none | some s ↦ some (tt, record w { state = s }) ]

  -- a question to the kernel
  unfoldable pub ask : {A : Type 0} → (P.State → A) → Sys P A
  ask f w = some (f w.state, w)

  -- `extmem_disk_write` of the page at an address
  unfoldable pub disk_write_page : (offset va : ℕ) → Sys P (Unit {0})
  disk_write_page offset va w =
      some (tt, record w { state = P.disk_write offset (P.memory va w.state) w.state })

  -- the first use of `buffer_space`, which is mapped anonymously
  unfoldable pub allocate_buffer : Sys P (Unit {0})
  allocate_buffer w =
      some (tt, record w { buffer = elim w.buffer [ none ↦ some P.zeros | some c ↦ some c ] })

  -- what `buffer_space` holds, and `assert(buffer_allocated == true)`
  unfoldable pub buffer_space : Sys P P.Content
  buffer_space w = elim w.buffer [ none ↦ none | some c ↦ some (c, w) ]

  -- `extmem_disk_read` into `buffer_space`
  unfoldable pub disk_read_page : (offset : ℕ) → Sys P (Unit {0})
  disk_read_page offset w = elim w.buffer [
    | none ↦ none
    | some c ↦
        let (read, s) = P.disk_read offset c w.state in
        some (tt, record w { buffer = some read; state = s })
  ]

  unfoldable pub count : (Stats → Stats) → Sys P (Unit {0})
  count g w = some (tt, record w { stats = g w.stats })

  unfoldable pub is_shrinking : Sys P Bool
  is_shrinking w = some (w.shrinkage_running, w)

  unfoldable pub set_shrinking : Bool → Sys P (Unit {0})
  set_shrinking b w = some (tt, record w { shrinkage_running = b })

  unfoldable pub prev_faults : Sys P (ℕ × ℕ)
  prev_faults w = some (w.prev_faults, w)

  -- `prev_fault_2 = prev_fault_1; prev_fault_1 = page_boundry`
  unfoldable pub fault_at : (page_boundry : ℕ) → Sys P (Unit {0})
  fault_at page_boundry w = some (tt, record w { prev_faults = (page_boundry, w.prev_faults.0) })

  unfoldable pub assert : Bool → Sys P (Unit {0})
  assert b w = if b then some (tt, w) else none
