-- ===== src/System/Laws.antt =====
-- What the kernel and the storage back end are relied on for, and what a page holds.
use swap_prefetch.Common.{
  ℕ, ◌+◌, ap, sym, ◌≤◌, ◌≡◌, ◌⊎◌, ◌∙◌, Bool, true, false, some, if◌then◌else◌,
}
use swap_prefetch.System.{Platform}

-- two pages, at addresses or on the storage, that do not overlap
abbrev pub Apart : ℕ → ℕ → Type 0
Apart a b = (a + 4096 ≤ b) ⊎ (b + 4096 ≤ a)

-- `s'` is as `s`, but for the page at the address `a`, and for the place `o` of the storage
pub record SameMemory (P : Platform) (a : ℕ) (s s' : P.State) : Type 0 where
  pub memory : (b : ℕ) → Apart a b → P.memory b s' ≡ P.memory b s
  pub mapped : (b : ℕ) → Apart a b → P.mapped b s' ≡ P.mapped b s
  pub registered : (b : ℕ) → P.registered b s' ≡ P.registered b s

abbrev pub SameDisk : (P : Platform) → (s s' : P.State) → Type 0
SameDisk P s s' = (o : ℕ) → P.disk o s' ≡ P.disk o s

-- a call that changes neither what a page holds nor what is mapped
pub record Harmless (P : Platform) (s s' : P.State) : Type 0 where
  pub memory : (b : ℕ) → P.memory b s' ≡ P.memory b s
  pub mapped : (b : ℕ) → P.mapped b s' ≡ P.mapped b s
  pub registered : (b : ℕ) → P.registered b s' ≡ P.registered b s
  pub dirty : (b : ℕ) → P.dirty b s' ≡ P.dirty b s
  pub disk : SameDisk P s s'

-- a call of the storage: what the pages hold and which are mapped stays
pub record SamePages (P : Platform) (s s' : P.State) : Type 0 where
  pub memory : (b : ℕ) → P.memory b s' ≡ P.memory b s
  pub mapped : (b : ℕ) → P.mapped b s' ≡ P.mapped b s
  pub registered : (b : ℕ) → P.registered b s' ≡ P.registered b s

-- UFFDIO_WRITEPROTECT and UFFDIO_CLEAR_FLAG for a mapped page, MADV_DONTNEED, and UFFDIO_COPY to a
-- page that is registered and not mapped succeed, and do what their documentation says. Of the
-- storage nothing is asked but that it leaves the pages alone: it may fail, change what it is
-- given, or give up another page.
pub record Lawful (P : Platform) : Type 0 where
  pub protect :
      (a : ℕ) (s : P.State)
      → P.mapped a s ≡ true
      → (s' : P.State) × (P.protect a s ≡ some s') × Harmless P s s'
  pub clear_accessed :
      (a : ℕ) (s : P.State)
      → P.mapped a s ≡ true
      → (s' : P.State) × (P.clear_accessed a s ≡ some s') × Harmless P s s'
  pub drop :
      (a : ℕ) (s : P.State)
      → P.registered a s ≡ true
      → (s' : P.State) × (P.drop a s ≡ some s')
        × (P.mapped a s' ≡ false)
        × SameMemory P a s s'
        × SameDisk P s s'
  pub copy_in :
      (a : ℕ) (c : P.Content) (s : P.State)
      → P.registered a s ≡ true
      → P.mapped a s ≡ false
      → (s' : P.State) × (P.copy_in a c s ≡ some s')
        × (P.mapped a s' ≡ true)
        × (P.memory a s' ≡ c)
        × SameMemory P a s s'
        × SameDisk P s s'
  pub disk_write_memory : (o : ℕ) (c : P.Content) (s : P.State) → SamePages P s (P.disk_write o c s)
  pub disk_read_memory : (o : ℕ) (c : P.Content) (s : P.State) → SamePages P s (P.disk_read o c s).1

-- The page at the address `a` has been given up for the place `o`: it is write protected, then
-- what it holds is written to `o` if it is to be written, and then it is given up. So the storage
-- is what the one write makes of it, or as it was.
pub record WentDown (P : Platform) (writeback : Bool) (a o : ℕ) (s s' : P.State) : Type 0 where
  pub before_write : P.State
  pub protected : P.protect a s ≡ some before_write
  pub harmless : Harmless P s before_write
  pub written : SameDisk P (if writeback then P.disk_write o (P.memory a s) before_write else s) s'
  pub given_up :
      P.drop a (if writeback then P.disk_write o (P.memory a s) before_write else before_write)
      ≡ some s'
  pub mapped : P.mapped a s' ≡ false
  pub memory : SameMemory P a s s'

-- The place `o` has been read into a buffer that held `c`, and the page at the address `a` mapped
-- with what the storage gave; the storage is as that read leaves it.
pub record CameUp (P : Platform) (a o : ℕ) (c : P.Content) (s s' : P.State) : Type 0 where
  pub mapped_in : P.copy_in a (P.disk_read o c s).0 (P.disk_read o c s).1 ≡ some s'
  pub content : P.memory a s' ≡ (P.disk_read o c s).0
  pub mapped : P.mapped a s' ≡ true
  pub memory : SameMemory P a s s'
  pub disk : SameDisk P (P.disk_read o c s).1 s'

module _ {P : Platform} (laws : Lawful P) where
  -- A mapped page is write protected, written to its place if it is to be, and given up.
  pub protect-drop-WentDown :
      (a o : ℕ) (s s1 : P.State) (writeback : Bool)
      → P.registered a s ≡ true
      → P.protect a s ≡ some s1
      → Harmless P s s1
      → (s' : P.State) × (P.drop a (if writeback then P.disk_write o (P.memory a s1) s1 else s1)
          ≡ some s')
        × WentDown P writeback a o s s'
  protect-drop-WentDown a o s s1 true reg first same =
      let s2 : P.State = P.disk_write o (P.memory a s1) s1 in
      let kept = laws.disk_write_memory o (P.memory a s1) s1 in
      let (s', ok, out, mem, dsk) = laws.drop a s2 (kept.registered a ∙ same.registered a ∙ reg) in
      (
        s',
        ok,
        record {
          before_write = s1;
          protected = first;
          harmless = same;
          given_up = ap (λ c. P.drop a (P.disk_write o c s1)) (sym (same.memory a)) ∙ ok;
          written = λ b. dsk b ∙ ap (λ c. P.disk b (P.disk_write o c s1)) (same.memory a);
          mapped = out;
          memory = record {
            memory = λ b far. mem.memory b far ∙ kept.memory b ∙ same.memory b;
            mapped = λ b far. mem.mapped b far ∙ kept.mapped b ∙ same.mapped b;
            registered = λ b. mem.registered b ∙ kept.registered b ∙ same.registered b;
          };
        },
      )
  protect-drop-WentDown a o s s1 false reg first same =
      let (s', ok, out, mem, dsk) = laws.drop a s1 (same.registered a ∙ reg) in
      (
        s',
        ok,
        record {
          before_write = s1;
          protected = first;
          harmless = same;
          given_up = ok;
          written = λ b. dsk b ∙ same.disk b;
          mapped = out;
          memory = record {
            memory = λ b far. mem.memory b far ∙ same.memory b;
            mapped = λ b far. mem.mapped b far ∙ same.mapped b;
            registered = λ b. mem.registered b ∙ same.registered b;
          };
        },
      )
