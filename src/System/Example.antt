-- ===== src/System/Example.antt =====
-- A machine that keeps to the laws: memory and storage are tables of numbers, every address is
-- registered, and every call succeeds.
use swap_prefetch.Common.{
  ℕ, ◌≡◌, ◌≢◌, ap, refl, inl, inr, Bool, true, false, some, ==_ne, ==_refl, arith,
}
use swap_prefetch.Memory.{write}
use swap_prefetch.System.{Platform}
use swap_prefetch.System.Laws.{Apart, Lawful, Harmless, SamePages}

pub record Machine : Type 0 where
  pub memory : ℕ → ℕ
  pub mapped : ℕ → Bool
  pub disk : ℕ → ℕ

-- `dirtied` says which pages are dirty and accessed.
abbrev pub machine : (dirtied : Bool) → Platform
machine dirtied = record {
  Content = ℕ;
  State = Machine;
  dramsize = 16384;
  disksize = 16384;
  zeros = 0;
  memory = λ a s. s.memory a;
  mapped = λ a s. s.mapped a;
  registered = λ a s. true;
  disk = λ o s. s.disk o;
  accessed = λ a s. dirtied;
  dirty = λ a s. dirtied;
  copy_in =
      λ a c s. some (record s { memory = write s.memory a c; mapped = write s.mapped a true });
  drop = λ a s. some (record s { mapped = write s.mapped a false });
  protect = λ a s. some s;
  unprotect = λ a s. some s;
  clear_accessed = λ a s. some s;
  disk_write = λ o c s. record s { disk = write s.disk o c };
  disk_read = λ o c s. (s.disk o, s);
}

Apart-ne : (a b : ℕ) → Apart a b → b ≢ a
Apart-ne a b (inl h) = omega arith
Apart-ne a b (inr h) = omega arith

module _ (d : Bool) where
  same : (s : Machine) → Harmless (machine d) s s
  same s = record {
    memory = λ b. refl;
    mapped = λ b. refl;
    registered = λ b. refl;
    dirty = λ b. refl;
    disk = λ o. refl;
  }

  unchanged :
      (s s' : Machine) → s'.memory ≡ s.memory → s'.mapped ≡ s.mapped → SamePages (machine d) s s'
  unchanged s s' e k = record {
    memory = λ b. ap (λ f. f b) e;
    mapped = λ b. ap (λ f. f b) k;
    registered = λ b. refl;
  }

  pub machine-Lawful : Lawful (machine d)
  machine-Lawful = record {
    protect = λ a s h. (s, refl, same s);
    clear_accessed = λ a s h. (s, refl, same s);
    drop = λ a s h. (
      record s { mapped = write s.mapped a false },
      refl,
      rw (==_refl a),
      record {
        memory = λ b far. refl;
        mapped = λ b far. rw (==_ne b a (Apart-ne a b far));
        registered = λ b. refl;
      },
      λ o. refl,
    );
    copy_in = λ a c s h k. (
      record s { memory = write s.memory a c; mapped = write s.mapped a true },
      refl,
      rw (==_refl a),
      rw (==_refl a),
      record {
        memory = λ b far. rw (==_ne b a (Apart-ne a b far));
        mapped = λ b far. rw (==_ne b a (Apart-ne a b far));
        registered = λ b. refl;
      },
      λ o. refl,
    );
    disk_write_memory = λ o c s. unchanged s (record s { disk = write s.disk o c }) refl refl;
    disk_read_memory = λ o c s. unchanged s s refl refl;
  }
