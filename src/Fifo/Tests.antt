-- ===== src/Fifo/Tests.antt =====
-- Two pages on one list: the theorems on the lists at work.
use swap_prefetch.Common.{
  ◌≡◌, ◌≢◌, refl, true, false, [], ◌∷◌, has, erase, init, last_or, arith, inl, inr, eq-cases, ==_ne,
}
use swap_prefetch.Memory.{Ptr, null, Mem, UserPage, PageData, FifoList, basep, write, Returns}
use swap_prefetch.Fifo.{enqueue_fifo, dequeue_fifo, page_list_remove_page, dequeue_fifo_vector}
use swap_prefetch.Fifo.Links.{IsQueue}
use swap_prefetch.Fifo.Queues.{Contents, Queues}
use swap_prefetch.Fifo.Put.{Queued, enqueue_fifo-Queues}
use swap_prefetch.Fifo.Calls.{Taken, dequeue_fifo-Queues, page_list_remove_page-Queues}
use swap_prefetch.Fifo.Walk.{Drained, dequeue_fifo_vector-Drained}

abbrev some_page : PageData
some_page = record {
  va = 0x7000;
  virtual_offset = 0;
  in_dram = true;
  swapped_out = false;
  pt = basep;
  migrating = false;
  has_reserve = false;
  present = true;
  naccesses = 0;
  reserve = null;
}

abbrev two_pages : Ptr → UserPage
two_pages =
    write
      (write (λ _. record { info = some_page; next = null; prev = null; list = null }) 10
        (record { info = some_page; next = null; prev = 11; list = 1 }))
      11 (record { info = some_page; next = 10; prev = null; list = 1 })

abbrev one_list : Ptr → FifoList
one_list =
    write (λ _. record { first = null; last = null; numentries = 0 }) 1
      (record { first = 11; last = 10; numentries = 2 })

abbrev two : Mem
two = record { page = two_pages; fifo = one_list }

abbrev contents : Contents
contents = write (λ _. []) 1 (11 ∷ 10 ∷ [])

two-Queues : Queues two contents
two-Queues = record { queue = queue; listed = listed; loose = loose }
  where
    queue : (q : Ptr) → q ≢ null → IsQueue two q (contents q)
    queue q qz = elim (eq-cases q 1) [
      | inl e ↦ rw e (record {
        chain = (
          (λ h. omega (arith, h)),
          refl,
          refl,
          refl,
          refl,
          ((λ h. omega (arith, h)), refl, refl, refl, refl, tt),
        );
        first = refl;
        last = refl;
        numentries = refl;
      })
      | inr n ↦ rw (==_ne q 1 n) (record {
        chain = tt;
        first = rw (==_ne q 1 n);
        last = rw (==_ne q 1 n);
        numentries = rw (==_ne q 1 n);
      })
    ]

    listed :
        (p : Ptr)
        → p ≢ null
        → (two_pages p).list ≢ null
        → has p (contents (two_pages p).list) ≡ true
    listed p pz on = elim (eq-cases p 11) [
      | inl e ↦ rw e refl
      | inr n ↦ elim (eq-cases p 10) [
        | inl e ↦ rw e refl
        | inr k ↦ absurd (on (rw (==_ne p 11 n, ==_ne p 10 k)))
      ]
    ]

    loose : (p : Ptr) → p ≢ null → (two_pages p).list ≡ null → (two_pages p).prev ≡ null
    loose p pz off = elim (eq-cases p 11) [
      | inl e ↦ rw e refl
      | inr n ↦ elim (eq-cases p 10) [
        | inl e ↦ absurd (ground (arith, e, off))
        | inr k ↦ rw (==_ne p 11 n, ==_ne p 10 k)
      ]
    ]

one≢null : 1 ≢ null
one≢null = λ h. omega (arith, h)

enqueue_fifo-Queues_example : Returns (λ _ n. Queued two contents 1 12 n) (enqueue_fifo 1 12 two)
enqueue_fifo-Queues_example =
    enqueue_fifo-Queues two contents 1 12 two-Queues one≢null (λ h. omega (arith, h)) refl

dequeue_fifo-Queues_example :
    Returns
      (λ p n. (p ≡ last_or null (contents 1)) × Taken two contents 1 p (init (contents 1)) n)
      (dequeue_fifo 1 two)
dequeue_fifo-Queues_example = dequeue_fifo-Queues two-Queues one≢null

page_list_remove_page-Queues_example :
    Returns
      (λ _ n. Taken two contents 1 11 (erase 11 (contents 1)) n)
      (page_list_remove_page 1 11 two)
page_list_remove_page-Queues_example = page_list_remove_page-Queues two-Queues one≢null 11 refl

dequeue_fifo_vector-Drained_example :
    Returns (λ pages n. Drained two contents 1 1 pages n) (dequeue_fifo_vector 1 1 two)
dequeue_fifo_vector-Drained_example =
    dequeue_fifo_vector-Drained 1 two contents 1 two-Queues one≢null
