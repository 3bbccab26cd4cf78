-- ===== src/System/Runs/Machine.antt =====
-- Commands on the machine, the buffer and the marks of the program: what they do to the abstract
-- view.
use swap_prefetch.Common.{ℕ, ◌≡◌, refl, ap, ◌∙◌, Bool, Option, none, some}
use swap_prefetch.Memory.{returns}
use swap_prefetch.System.{
  Platform, Stats, kernel, ask, disk_write_page, allocate_buffer, buffer_space, disk_read_page,
  count, is_shrinking, prev_faults, fault_at, set_shrinking,
}
use swap_prefetch.System.View.{Abs}
use swap_prefetch.System.Runs.Base.{Runs}

-- what `buffer_space` holds once it is there
abbrev pub allocated : (P : Platform) → Option P.Content → P.Content
allocated P none = P.zeros
allocated P (some c) = c

module _ {P : Platform} where
  module _ {v : Abs P} where
    pub Runs-kernel :
        (g : P.State → Option P.State) {s : P.State}
        → g v.state ≡ some s
        → Runs (kernel g) v tt (record v { state = s })
    unfolding kernel
    Runs-kernel g e = record {
      run = λ w h.
          rw (kernel, ap g h.state ∙ e)
            (returns (
              refl,
              record {
                mem = h.mem;
                state = refl;
                buffer = h.buffer;
                shrinkage_running = h.shrinkage_running;
                prev_faults = h.prev_faults;
              },
            ));
    }

    pub Runs-ask : {A : Type 0} (g : P.State → A) → Runs (ask g) v (g v.state) v
    unfolding ask
    Runs-ask {A} g = record { run = λ w h. returns (ap g h.state, h) }

    pub Runs-disk_write :
        (o a : ℕ)
        → Runs
            (disk_write_page o a)
            v
            tt
            (record v { state = P.disk_write o (P.memory a v.state) v.state })
    unfolding disk_write_page
    Runs-disk_write o a = record {
      run = λ w h. returns (
        refl,
        record {
          mem = h.mem;
          state = ap (λ s. P.disk_write o (P.memory a s) s) h.state;
          buffer = h.buffer;
          shrinkage_running = h.shrinkage_running;
          prev_faults = h.prev_faults;
        },
      );
    }

    pub Runs-allocate :
        Runs (allocate_buffer {P = P}) v tt (record v { buffer = some (allocated P v.buffer) })
    unfolding allocate_buffer
    Runs-allocate = record {
      run = λ w h. returns (
        refl,
        record {
          mem = h.mem;
          state = h.state;
          buffer =
              ap (λ b. elim b as (λ _. Option P.Content) [ none ↦ some P.zeros | some c ↦ some c ])
                h.buffer
              ∙ there v.buffer;
          shrinkage_running = h.shrinkage_running;
          prev_faults = h.prev_faults;
        },
      );
    }
      where
        there :
            (o : Option P.Content)
            → (elim o as (λ _. Option P.Content) [ none ↦ some P.zeros | some c ↦ some c ])
              ≡ some (allocated P o)
        there none = refl
        there (some c) = refl

    pub Runs-buffer_space : {c : P.Content} → v.buffer ≡ some c → Runs (buffer_space {P = P}) v c v
    unfolding buffer_space
    Runs-buffer_space e = record {
      run = λ w h. rw (buffer_space, h.buffer ∙ e) (returns (refl, h));
    }

    pub Runs-disk_read :
        (o : ℕ) {c : P.Content}
        → v.buffer ≡ some c
        → Runs (disk_read_page {P = P} o) v tt (record v {
          buffer = some (P.disk_read o c v.state).0;
          state = (P.disk_read o c v.state).1;
        })
    unfolding disk_read_page
    Runs-disk_read o {c} e = record {
      run = λ w h.
          rw (h.buffer, e)
            (returns (
              refl,
              record {
                mem = h.mem;
                state = ap (λ s. (P.disk_read o c s).1) h.state;
                buffer = ap (λ s. some (P.disk_read o c s).0) h.state;
                shrinkage_running = h.shrinkage_running;
                prev_faults = h.prev_faults;
              },
            ));
    }

    pub Runs-count : (g : Stats → Stats) → Runs (count {P = P} g) v tt v
    unfolding count
    Runs-count g = record {
      run = λ w h. returns (
        refl,
        record {
          mem = h.mem;
          state = h.state;
          buffer = h.buffer;
          shrinkage_running = h.shrinkage_running;
          prev_faults = h.prev_faults;
        },
      );
    }

    pub Runs-is_shrinking : Runs (is_shrinking {P = P}) v v.shrinkage_running v
    unfolding is_shrinking
    Runs-is_shrinking = record { run = λ w h. returns (h.shrinkage_running, h) }

    pub Runs-set_shrinking :
        (b : Bool) → Runs (set_shrinking {P = P} b) v tt (record v { shrinkage_running = b })
    unfolding set_shrinking
    Runs-set_shrinking b = record {
      run = λ w h. returns (
        refl,
        record {
          mem = h.mem;
          state = h.state;
          buffer = h.buffer;
          shrinkage_running = refl;
          prev_faults = h.prev_faults;
        },
      );
    }

  pub Runs-fault_at :
      {v : Abs P} (page_boundry : ℕ)
      → Runs
          (fault_at {P = P} page_boundry)
          v
          tt
          (record v { prev_faults = (page_boundry, v.prev_faults.0) })
  unfolding fault_at
  Runs-fault_at a = record {
    run = λ w h. returns (
      refl,
      record {
        mem = h.mem;
        state = h.state;
        buffer = h.buffer;
        shrinkage_running = h.shrinkage_running;
        prev_faults = ap (λ (f : ℕ × ℕ). (a, f.0)) h.prev_faults;
      },
    );
  }

  pub Runs-prev_faults : {v : Abs P} → Runs (prev_faults {P = P}) v v.prev_faults v
  unfolding prev_faults
  Runs-prev_faults = record { run = λ w h. returns (h.prev_faults, h) }
