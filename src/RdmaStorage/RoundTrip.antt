-- ===== src/RdmaStorage/RoundTrip.antt =====
-- A page that is written to the storage and read back.
use swap_prefetch.Common.{
  ℕ, ◌+◌, ◌-◌, ◌≡◌, ◌≢◌, ◌<◌, refl, sym, ap, ◌∙◌, Bool, none, some, word, arith, inl, inr,
  Bool-cases, ltb, true,
}
use swap_prefetch.RdmaSim.Allocator.{Allocator, rdma_sim_allocate}
use swap_prefetch.RdmaSim.Errno.{ok}
use swap_prefetch.PointerPrefetch.{
  page_size, convert_pointers_for_remote_storage, convert_pointers_from_remote_storage,
}
use swap_prefetch.PointerPrefetch.Conversion.{for_remote-lt, from_remote-lt}
use swap_prefetch.AddressTranslation.{Translator}
use swap_prefetch.RdmaStorage.{
  Storage, Outside, Return, success, region_at, find_remote_region, load_word, store_word, byte,
  last_word, convert_page, convert_for, rdma_read_page, rdma_write_page,
}
use swap_prefetch.RdmaStorage.Word.{
  IsBytes, store_word-out, load_word-store_word, load_word-lt, byte-load_word,
}
use swap_prefetch.RdmaStorage.Given.{served}
use swap_prefetch.RdmaStorage.Stored.{Home, Brought, rdma_read_page-Stored}
use swap_prefetch.RdmaStorage.Fresh.{Roomy, registered_at, page_write, page_given}
use swap_prefetch.RdmaStorage.Written.{Wrote, page_at, registered, rdma_write_page-known}

convert_for-run :
    (t : Translator) (page : ℕ → ℕ) (b : Bool) (q : ℕ)
    → convert_pointers_for_remote_storage (some (load_word page last_word)) t ≡ (b, some q)
    → convert_for t page ≡ store_word page last_word q
unfolding convert_for convert_page
convert_for-run t page b q e = simp e refl

-- What the conversions make of the last word of a page: `q` in the storage, and `p` at last.
pub record Converts (t : Translator) (page : ℕ → ℕ) (q p : ℕ) : Type 0 where
  pub there :
      (b : Bool) × (convert_pointers_for_remote_storage (some (load_word page last_word)) t
        ≡ (b, some q))
  pub back : (b : Bool) × (convert_pointers_from_remote_storage (some q) t ≡ (b, some p))

-- the memory once a page that stood at `src` is at `dest`, its last word `p`
pub record Returned (src dest p : ℕ) (before after : Storage) : Type 0 where
  pub brought : Brought dest p (page_at src before) before.world.memory after.world.memory
  pub whole :
      p ≡ load_word (page_at src before) last_word
      → (k : ℕ) → k < page_size
      → after.world.memory (dest + k) ≡ before.world.memory (src + k)

read-Wrote :
    (malloc : Bool) (o : Outside) (off src dest i q p : ℕ) (t : Translator) (a : Allocator)
    (s s1 : Storage) (result : Return)
    → Wrote off src i t a s result s1
    → IsBytes s.world.memory
    → dest ≢ 0
    → Converts t (page_at src s) q p
    → let (result', s2) = rdma_read_page (served malloc o) off dest page_size s1 in
      (result' ≡ success) × Returned src dest p s s2
read-Wrote malloc o off src dest i q p t a s s1 result w bytes nz c =
    let page : ℕ → ℕ = page_at src s in
    let low : q < word =
      for_remote-lt (load_word page last_word) q t c.there.0
        (load_word-lt page last_word (λ k. bytes (src + k))) c.there.1 in
    let stored : convert_for t page ≡ store_word page last_word q =
      convert_for-run t page c.there.0 q c.there.1 in
    let last : load_word (convert_for t page) last_word ≡ q =
      ap (λ m. load_word m last_word) stored ∙ load_word-store_word page last_word q low in
    let body : (k : ℕ) → k < last_word → convert_for t page k ≡ page k =
      λ k h. ap (λ m. m k) stored ∙ store_word-out page last_word q k (inl h) in
    let back : convert_pointers_from_remote_storage
          (some (load_word (convert_for t page) last_word)) s1.translator
        ≡ (c.back.0, some p) =
      ap
        (λ x.
          convert_pointers_from_remote_storage (some (load_word (convert_for t page) last_word)) x)
        w.translator
      ∙ ap (λ x. convert_pointers_from_remote_storage (some x) t) last
      ∙ c.back.1 in
    let (reads, brought, _, _, _, _, _, _) =
      rdma_read_page-Stored malloc o off dest i p c.back.0 (convert_for t page) s1 w.stored
        w.ids_left nz back (from_remote-lt q p t c.back.0 low c.back.1) in
    let (_, s2) = rdma_read_page (served malloc o) off dest page_size s1 in
    (
      reads,
      record {
        brought = record {
          body = λ k h. brought.body k h ∙ body k h;
          pointer = brought.pointer;
          last_bytes = brought.last_bytes;
          elsewhere = λ x h. brought.elsewhere x h ∙ ap (λ m. m x) w.memory;
        };
        whole = λ e k low. elim (Bool-cases (ltb k last_word)) [
          | inl first ↦ brought.body k (ground arith) ∙ body k (ground arith)
          | inr behind ↦
              let j : ℕ = k - last_word in
              let at : last_word + j ≡ k = ground arith in
              ap s2.world.memory (ap (λ x. dest + x) (sym at) ∙ plus_assoc dest last_word j)
              ∙ brought.last_bytes j (omega (arith, at))
              ∙ ap (λ v. byte v j) e
              ∙ byte-load_word page last_word j (λ x. bytes (src + x)) (omega (arith, at))
              ∙ ap page at
        ];
      },
    )
  where
    plus_assoc : (x y z : ℕ) → x + (y + z) ≡ x + y + z
    plus_assoc x y z = omega arith

-- A page that the storage has a region of its size for, in the remote memory, is written and read
-- back to an address other than NULL. If the `malloc` of the copy that the write makes succeeds,
-- the server answers each request in time, and the ids of requests do not wrap, both succeed, the
-- page stands there with the last word that the two conversions make of its own, and no other byte
-- of the memory is changed. If the conversions give the word back, the whole page is as it was.
pub read-write_known :
    (malloc : Bool) (o : ℕ → Outside) (o' : Outside) (off src dest i q p buffer : ℕ) (s : Storage)
    → Home off i s
    → (region_at s.remote_regions i).size ≡ page_size
    → s.world.request_id_counter + 2 < word
    → (o 2).buffer ≡ some buffer
    → IsBytes s.world.memory
    → dest ≢ 0
    → Converts (registered (o 2) off i s) (page_at src s) q p
    → let (wrote, s1) = rdma_write_page (λ k. served malloc (o k)) off src page_size s in
      let (read, s2) = rdma_read_page (served malloc o') off dest page_size s1 in
      (wrote ≡ success) × (read ≡ success) × Returned src dest p s s2
read-write_known malloc o o' off src dest i q p buffer s h e room b bytes nz c =
    let w = rdma_write_page-known malloc o off src i buffer s h e room b in
    let (wrote, s1) = rdma_write_page (λ k. served malloc (o k)) off src page_size s in
    let (reads, back) =
      read-Wrote malloc o' off src dest i q p (registered (o 2) off i s) s.world.server s s1 wrote w
        bytes nz c in
    (w.succeeds, reads, back)

-- The same for a page that the storage does not know, while a valid table has an unused slot and
-- the server's heap is valid and gives memory for a page at `addr`.
pub read-write_new :
    (o : ℕ → Outside) (o' : Outside) (off src dest i q p addr buffer : ℕ) (a : Allocator)
    (s : Storage)
    → Roomy i s
    → find_remote_region off s.num_remote_regions s.remote_regions ≡ none
    → s.world.request_id_counter + 3 < word
    → (o 2).buffer ≡ some buffer
    → rdma_sim_allocate true true page_size s.world.server ≡ (ok addr, a)
    → IsBytes s.world.memory
    → dest ≢ 0
    → Converts (registered_at (o 2) off addr s.translator) (page_at src s) q p
    → let (wrote, s1) = rdma_write_page (λ k. served true (o k)) off src page_size s in
      let (read, s2) = rdma_read_page (served true o') off dest page_size s1 in
      (wrote ≡ success) × (read ≡ success) × Returned src dest p s s2
read-write_new o o' off src dest i q p addr buffer a s h missing room b e bytes nz c =
    let w = page_write o off src i addr buffer a s h missing room b e (page_given i addr a s h e) in
    let (wrote, s1) = rdma_write_page (λ k. served true (o k)) off src page_size s in
    let (reads, back) =
      read-Wrote true o' off src dest i q p (registered_at (o 2) off addr s.translator) a s s1 wrote
        w bytes nz c in
    (w.succeeds, reads, back)
